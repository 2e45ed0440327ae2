-- ===== src/Udp/Buffer.antt =====
-- udp/udp.go, `SetReceiveBuffer`: make the receive buffer of a socket large enough.
use Prim.Native.String.{◌++◌ as str_append}
use rtp_over_quic.Base.{
  ℕ, ◌*◌, ◌/◌, ◌≤◌, ◌≡◌, refl, Bool, true, false, Option, none, some, String, ◌⊎◌, leb, ltb, ◌==◌,
  if◌then◌else◌, arith, Bool-cases, inl, inr,
}

abbrev desired_receive_buffer_size : ℕ
desired_receive_buffer_size = 2 * 1_048_576

-- The socket as the code sees it: `SO_RCVBUF` may be read and set, each may fail, and the kernel
-- chooses the size.
pub record Socket : Type 1 where
  pub State : Type 0
  -- The type assertions on the connection.
  pub can_set : Bool
  pub can_inspect : Bool
  pub inspect : State → String ⊎ ℕ
  pub set_read_buffer : ℕ → State → String ⊎ State

-- Which error: a text of the code with the text of the wrapped error, or with the sizes.
pub data BufferError : Type 0 where
  not_settable : BufferError
  undetermined not_increased : String → BufferError
  not_changed : ℕ → BufferError
  not_sufficient : ℕ → ℕ → BufferError

-- `err.Error()`, for `fmt`'s printing of a number.
unfoldable pub message : (ℕ → String) → BufferError → String
message decimal not_settable =
    "connection doesn't allow setting of receive buffer size. Not a *net.UDPConn?"
message decimal (undetermined e) = str_append "failed to determine receive buffer size: " e
message decimal (not_increased e) = str_append "failed to increase receive buffer size: " e
message decimal (not_changed n) = str_append "failed to increase receive buffer size (wanted: " (
    str_append (decimal (desired_receive_buffer_size / 1024))
      (str_append " kiB, got " (str_append (decimal (n / 1024)) " kiB)")))
message decimal (not_sufficient size n) =
    str_append "failed to sufficiently increase receive buffer size (was: " (
      str_append (decimal (size / 1024)) (
        str_append " kiB, wanted: " (
          str_append (decimal (desired_receive_buffer_size / 1024))
            (str_append " kiB, got: " (str_append (decimal (n / 1024)) " kiB)")))))

module _ (k : Socket) where
  unfoldable pub inspect_read_buffer : k.State → String ⊎ ℕ
  inspect_read_buffer s = if k.can_inspect then k.inspect s else inl "doesn't have a SyscallConn"

  -- The check after the buffer was set.
  abbrev judged : ℕ → k.State → String ⊎ ℕ → Option BufferError × k.State
  judged size s (inr new_size) =
      if new_size == size
      then (some (not_changed new_size), s)
      else (if ltb new_size desired_receive_buffer_size
          then (some (not_sufficient size new_size), s)
          else (none, s))
  judged size s (inl e) = (some (undetermined e), s)

  abbrev increased : ℕ → k.State → String ⊎ k.State → Option BufferError × k.State
  increased size s (inr s') = judged size s' (inspect_read_buffer s')
  increased size s (inl e) = (some (not_increased e), s)

  abbrev sized : k.State → String ⊎ ℕ → Option BufferError × k.State
  sized s (inr size) =
      if leb desired_receive_buffer_size size
      then (none, s)
      else increased size s (k.set_read_buffer desired_receive_buffer_size s)
  sized s (inl e) = (some (undetermined e), s)

  abbrev settable : Bool → k.State → Option BufferError × k.State
  settable true s = sized s (inspect_read_buffer s)
  settable false s = (some not_settable, s)

  -- The error, if any, and the socket afterwards.
  unfoldable pub set_receive_buffer : k.State → Option BufferError × k.State
  set_receive_buffer s = settable k.can_set s

  -- The buffer is large enough.
  abbrev pub IsLargeEnough : k.State → Type 0
  IsLargeEnough s =
      (size : ℕ) × (inspect_read_buffer s ≡ inr size) × (desired_receive_buffer_size ≤ size)

  judged-large :
      (size : ℕ) (s : k.State) (o : String ⊎ ℕ)
      → inspect_read_buffer s ≡ o
      → (judged size s o).0 ≡ none
      → IsLargeEnough (judged size s o).1
  judged-large size s (inl x) o e = cc
  judged-large size s (inr n) o e = elim (Bool-cases (n == size)) [
    | inl same ↦ cc (rw same at e)
    | inr changed ↦ elim (Bool-cases (ltb n desired_receive_buffer_size)) [
      | inl short ↦ cc (rw (changed, short) at e)
      | inr enough ↦ rw (changed, enough) (n, o, ground arith)
    ]
  ]

  increased-large :
      (size : ℕ) (s : k.State) (o : String ⊎ k.State)
      → (increased size s o).0 ≡ none
      → IsLargeEnough (increased size s o).1
  increased-large size s (inl x) e = cc
  increased-large size s (inr s') e = judged-large size s' (inspect_read_buffer s') refl e

  sized-large :
      (s : k.State) (o : String ⊎ ℕ)
      → inspect_read_buffer s ≡ o
      → (sized s o).0 ≡ none
      → IsLargeEnough (sized s o).1
  sized-large s (inl x) o e = cc
  sized-large s (inr n) o e = elim (Bool-cases (leb desired_receive_buffer_size n)) [
    | inl large ↦ rw large (n, o, ground arith)
    | inr small ↦ rw small (increased-large n s _ (rw small at e))
  ]

  settable-large :
      (can : Bool) (s : k.State) → (settable can s).0 ≡ none → IsLargeEnough (settable can s).1
  settable-large true s e = sized-large s (inspect_read_buffer s) refl e
  settable-large false s e = cc

  -- If `SetReceiveBuffer` returns no error, the socket that it leaves behind has a receive buffer
  -- of at least the desired size, by a reading that succeeds.
  pub set_receive_buffer-IsLargeEnough :
      (s : k.State) → (set_receive_buffer s).0 ≡ none → IsLargeEnough (set_receive_buffer s).1
  unfolding set_receive_buffer
  set_receive_buffer-IsLargeEnough s e = settable-large k.can_set s e
