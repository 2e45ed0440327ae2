-- ===== src/Logging.antt =====
-- The package logging: the files that the program logs into, the directory of the qlogs, and the
-- key log. The operating system is a parameter.
use Prim.Native.String.{◌++◌ as str_append}
use rtp_over_quic.Base.{
  ℕ, ◌≡◌, refl, sym, ap, ◌∙◌, Bool, true, false, String, str_eq, if◌then◌else◌, List, [], ◌∷◌, ◌++◌,
  Option, none, some, Outcome, ok, err, length, concat,
}
use mathlib.Core.List.{append_assoc, append-nil}

-- The answer of `os.Stat`.
pub data Stat : Type 0 where
  exists not_there : Stat
  stat_fails : String → Stat

-- The errors of `os.Create`, `os.MkdirAll` and `os.OpenFile`, for a path; and `strings.TrimRight`
-- with "/".
pub record Os : Type 0 where
  pub create : String → Option String
  pub stat : String → Stat
  pub make_all : String → Option String
  pub open_truncated : String → Option String
  pub trim_right : String → String

-- What `GetLogFile` returns: it discards, it writes to stdout without closing it, or the
-- `fileCloser` of a file.
pub data LogFile : Type 0 where
  discards stdout : LogFile
  file_closer : String → LogFile

abbrev pub without_error {ℓ} : {A : Type ℓ} → Option String → A → Outcome A
without_error none a = ok a
without_error (some e) a = err e

unfoldable pub get_log_file : Os → String → Outcome LogFile
get_log_file os file =
    if str_eq file ""
    then ok discards
    else (if str_eq file "stdout"
        then ok stdout
        else without_error (os.create file) (file_closer file))

-- A tracer, by where its connections' logs go.
pub data QlogTracer : Type 0 where
  qlog_stdout : QlogTracer
  qlog_directory : String → QlogTracer

-- `none` is nil. A directory that is not there is made.
unfoldable pub get_qlog_tracer : Os → String → Outcome (Option QlogTracer)
get_qlog_tracer os path =
    if str_eq path ""
    then ok none
    else (if str_eq path "stdout" then ok (some qlog_stdout) else elim (os.stat path) [
      | exists ↦ ok (some (qlog_directory path))
      | not_there ↦ elim (os.make_all path) [
        | none ↦ ok (some (qlog_directory path))
        | some e ↦
            err (str_append "failed to create qlog dir " (str_append path (str_append ": " e)))
      ]
      | stat_fails e ↦ err e
    ])

-- The file of a connection, for its ID in hexadecimal and the perspective; `none` is nil, where it
-- cannot be created.
unfoldable qlog_file : Os → String → String → String → Option String
qlog_file os path id perspective =
    let file =
      str_append (os.trim_right path)
        (str_append "/" (str_append id (str_append "_" (str_append perspective ".qlog")))) in
    elim (os.create file) [ none ↦ some file | some e ↦ none ]

unfoldable pub get_key_logger : Os → String → Outcome (Option String)
get_key_logger os file =
    if str_eq file "" then ok none else without_error (os.open_truncated file) (some file)

-- A `fileCloser`: what the file holds, what its bufio.Writer holds, and whether the file is open.
pub record FileCloser : Type 0 where
  pub content : List ℕ
  pub buffered : List ℕ
  pub is_open : Bool

abbrev new_file_closer : FileCloser
new_file_closer = record { content = []; buffered = []; is_open = true }

-- `os.File.Write`, which writes it all or fails for a closed file.
abbrev file_write : List ℕ → FileCloser → FileCloser × Outcome ℕ
file_write buf f =
    if f.is_open
    then (record f { content = f.content ++ buf }, ok (length buf))
    else (f, err "file already closed")

-- `bufio.Writer.Flush`.
abbrev flush : FileCloser → FileCloser
flush f = if f.is_open then record f { content = f.content ++ f.buffered; buffered = [] } else f

unfoldable pub write : List ℕ → FileCloser → FileCloser × Outcome ℕ
write buf f = file_write buf f

unfoldable pub close : FileCloser → FileCloser × Outcome (Unit {0})
close f =
    let flushed = flush f in
    if flushed.is_open
    then (record flushed { is_open = false }, ok tt)
    else (flushed, err "file already closed")

unfoldable pub write_all : List (List ℕ) → FileCloser → FileCloser
unfolding write
write_all [] f = f
write_all (buf ∷ bufs) f = write_all bufs (write buf f).0

abbrev opened : List ℕ → FileCloser
opened content = record { content = content; buffered = []; is_open = true }

write_all_lem :
    (bufs : List (List ℕ)) (content : List ℕ)
    → write_all bufs (opened content) ≡ opened (content ++ concat bufs)
unfolding write_all write
write_all_lem [] content = ap opened (sym (append-nil content))
write_all_lem (buf ∷ bufs) content =
    write_all_lem bufs (content ++ buf) ∙ ap opened (append_assoc content buf (concat bufs))

-- The writer with the buffer: every `Write` reaches the file at once, none goes through the buffer,
-- and closing adds nothing to the file.
close-write_all :
    (bufs : List (List ℕ))
    → let f = write_all bufs new_file_closer in
      (f.content ≡ concat bufs)
      × (f.buffered ≡ [])
      × (close f ≡ (record f { is_open = false }, ok tt))
unfolding close
close-write_all bufs = rw (write_all_lem bufs []) (refl, refl, rw (append-nil (concat bufs)) refl)
