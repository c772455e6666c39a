-- ===== src/Api.antt =====
-- internal/api/api.go: the checks that stand before the handlers (secure, isFileUpload), and the file
-- names of uploads and downloads (sanitizeFilename). net/url is a parameter. The handlers stand
-- in the modules below.
pub mod FileNames
pub mod Guards
pub mod Answers
pub mod Server
pub mod Account
pub mod Chats
pub mod RoomCalls
pub mod FileCalls
pub mod Routes
use chirp.Prelude.{
  ℕ, suc, ◌+◌, Bool, true, false, ◌&&◌, ◌||◌, not, [], ◌∷◌, Text, codes, text_eq, Option, none,
  some, Result, ok, err, ◌>>=◌, ◌>>◌, guard, if◌then◌else◌,
}
use chirp.Bytes.Strings.{last_cut, split_host_port}
use chirp.Proto.Envelope.{is_empty, max_file_size}
use chirp.Store.Rooms.{has_prefix}

-- What secure reads of a request.
pub record Request : Type 0 where
  pub method : Text
  pub host : Text
  pub path : Text
  pub x_chirp : Text
  pub origin : Text

pub data Forbidden : Type 0 where
  forbidden_host missing_header cross_origin : Forbidden

abbrev pub max_body_bytes : ℕ
max_body_bytes = 65536

abbrev pub max_file_upload : ℕ
max_file_upload = max_file_size + 1048576

-- The part before the port, or the whole where there is none.
abbrev pub host_name : Text → Text
host_name s = elim (split_host_port s) [ none ↦ s | some (host, port) ↦ host ]

abbrev pub is_local : Text → Bool
is_local h =
    text_eq h (codes "127.0.0.1")
    || text_eq h (codes "localhost")
    || text_eq h (codes "[::1]")
    || text_eq h (codes "::1")

abbrev pub is_safe : Text → Bool
is_safe m = text_eq m (codes "GET") || text_eq m (codes "HEAD")

-- strings.Contains
unfoldable pub contains : Text → Text → Bool
contains [] sub = text_eq sub []
contains (b ∷ s) sub = has_prefix (b ∷ s) sub || contains s sub

abbrev pub is_file_upload : Request → Bool
is_file_upload r = contains r.path (codes "/file") && text_eq r.method (codes "POST")

-- url.Parse(s).Host, or none where Parse fails.
abbrev pub same_origin : (Text → Option Text) → Request → Bool
same_origin url_host r = elim (url_host r.origin) [ none ↦ false | some h ↦ text_eq h r.host ]

-- The limit on the body where there is one.
unfoldable pub secure : (Text → Option Text) → Request → Result Forbidden (Option ℕ)
secure url_host r = do
  guard (is_local (host_name r.host)) forbidden_host
  guard (is_safe r.method || text_eq r.x_chirp (codes "1")) missing_header
  guard (is_safe r.method || is_empty r.origin || same_origin url_host r) cross_origin
  ok (
      if is_safe r.method
      then none
      else if is_file_upload r
      then some max_file_upload
      else some max_body_bytes)

-- What follows the last such byte.
abbrev pub after_last : ℕ → Text → Text
after_last c s = elim (last_cut c s) [ none ↦ s | some (before, after) ↦ after ]

abbrev pub is_dots : Text → Bool
is_dots s = text_eq s (codes ".") || text_eq s (codes "..")

-- 47 is a slash, 92 a backslash.
unfoldable pub sanitize_filename : Text → Text
sanitize_filename name =
    let base = after_last 92 (after_last 47 name) in
    if is_empty name || is_empty base || is_dots base then codes "file" else base
