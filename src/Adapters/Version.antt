-- ===== src/Adapters/Version.antt =====
-- Optimistic concurrency control: the version constants and `CheckVersion` of adapters/common.go.
use go_mink.Base.{
  ℕ, zero, suc, ◌≡◌, refl, ◌≢◌, ◌↔◌, String, Bool, true, false, not, Option, none, some, arith,
  if◌then◌else◌,
}
use go_mink.Base.Int.{ℤ, pos, negsuc, eqb_ℤ, ltb_ℤ}
use go_mink.Adapters.Errors.{Error, concurrency_error, stream_not_found_error, invalid_version}

abbrev pub any_version : ℤ
any_version = negsuc 0

abbrev pub no_stream : ℤ
no_stream = pos 0

abbrev pub stream_exists : ℤ
stream_exists = negsuc 1

-- The cases of the `switch` in their order; `none` is a nil error.
unfoldable pub check_version : String → ℤ → ℤ → Bool → Option Error
check_version stream_id expected current exists =
    if eqb_ℤ expected any_version
    then none
    else if eqb_ℤ expected no_stream
    then (if exists then some (concurrency_error stream_id expected current) else none)
    else if eqb_ℤ expected stream_exists
    then (if exists then none else some (stream_not_found_error stream_id))
    else if ltb_ℤ expected (pos 0)
    then some invalid_version
    else if not (eqb_ℤ current expected)
    then some (concurrency_error stream_id expected current)
    else none

-- What an expected version means to a caller: which streams it accepts.
pub data Accepts : ℤ → ℤ → Bool → Type 0 where
  any : {current : ℤ} {exists : Bool} → Accepts any_version current exists
  fresh : {current : ℤ} → Accepts no_stream current false
  present : {current : ℤ} → Accepts stream_exists current true
  exact : {n : ℕ} {exists : Bool} → Accepts (pos (suc n)) (pos (suc n)) exists

-- Which error each refused append gets.
pub data Rejects (stream_id : String) : ℤ → ℤ → Bool → Error → Type 0 where
  occupied :
      {current : ℤ}
      → Rejects stream_id no_stream current true (concurrency_error stream_id no_stream current)
  missing :
      {current : ℤ}
      → Rejects stream_id stream_exists current false (stream_not_found_error stream_id)
  malformed :
      {n : ℕ} {current : ℤ} {exists : Bool}
      → Rejects stream_id (negsuc (suc (suc n))) current exists invalid_version
  stale :
      {n : ℕ} {current : ℤ} {exists : Bool}
      → current ≢ pos (suc n)
      → Rejects stream_id
          (pos (suc n))
          current
          exists
          (concurrency_error stream_id (pos (suc n)) current)

accepted :
    (sid : String) (expected current : ℤ) (exists : Bool)
    → check_version sid expected current exists ≡ none
    → Accepts expected current exists
unfolding check_version
accepted sid (negsuc zero) current exists h = any
accepted sid (negsuc (suc zero)) current true h = present
accepted sid (negsuc (suc zero)) current false h = cc
accepted sid (negsuc (suc (suc n))) current exists h = absurd (ground arith)
accepted sid (pos zero) current true h = cc
accepted sid (pos zero) current false h = fresh
accepted sid (pos (suc n)) current exists h =
    let same : current ≡ pos (suc n) = ground arith in rw same exact

Accepts-check_version :
    (sid : String) {expected current : ℤ} {exists : Bool}
    → Accepts expected current exists
    → check_version sid expected current exists ≡ none
unfolding check_version
Accepts-check_version sid any = refl
Accepts-check_version sid fresh = refl
Accepts-check_version sid present = refl
Accepts-check_version sid exact = ground arith

rejected :
    (sid : String) (expected current : ℤ) (exists : Bool) (e : Error)
    → check_version sid expected current exists ≡ some e
    → Rejects sid expected current exists e
unfolding check_version
rejected sid (negsuc zero) current exists e h = cc
rejected sid (negsuc (suc zero)) current true e h = cc
rejected sid (negsuc (suc zero)) current false e h =
    let same : e ≡ stream_not_found_error sid = ground arith in rw same missing
rejected sid (negsuc (suc (suc n))) current exists e h =
    let same : e ≡ invalid_version = ground arith in rw same malformed
rejected sid (pos zero) current true e h =
    let same : e ≡ concurrency_error sid no_stream current = ground arith in rw same occupied
rejected sid (pos zero) current false e h = cc
rejected sid (pos (suc n)) current exists e h =
    let same : e ≡ concurrency_error sid (pos (suc n)) current = ground arith in
    let other : current ≢ pos (suc n) = λ q. ground arith in rw same (stale other)

Rejects-check_version :
    (sid : String) {expected current : ℤ} {exists : Bool} {e : Error}
    → Rejects sid expected current exists e
    → check_version sid expected current exists ≡ some e
unfolding check_version
Rejects-check_version sid occupied = refl
Rejects-check_version sid missing = refl
Rejects-check_version sid malformed = ground arith
Rejects-check_version sid (stale h) = ground arith

-- The version check passes exactly when the expected version accepts the stream, and fails with an
-- error exactly when that is the error with which the version is refused.
pub check_version-decides :
    (sid : String) (expected current : ℤ) (exists : Bool)
    → ((check_version sid expected current exists ≡ none) ↔ Accepts expected current exists)
      × ((e : Error)
          → (check_version sid expected current exists ≡ some e)
            ↔ Rejects sid expected current exists e)
check_version-decides sid expected current exists = (
  (accepted sid expected current exists, Accepts-check_version sid),
  λ e. (rejected sid expected current exists e, Rejects-check_version sid),
)
