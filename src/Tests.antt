-- ===== src/Tests.antt =====
-- The theorems at concrete inputs, on concrete instances of the packages that the model takes as
-- parameters.
mod Packages
mod TcpRuns
mod QuicRuns
mod ScreamRuns
mod InterceptorRuns
mod LockingRuns
mod ReceiverRuns
mod UdpRuns
mod RtpRuns
mod CmdRuns
mod MediaRuns
mod DeliveryRuns
mod QueuedRuns
mod ProgramRuns
mod PacedRuns
