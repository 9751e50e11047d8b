-- ===== src/Endpoint.antt =====
-- `Endpoint` and `Endpoint::parse` (src/lib.rs).
pub mod Laws
use aws_kms_demo.Base.{
  ℕ, Str, txt, Bool, true, false, Option, none, some, ◌++◌, if◌then◌else◌, Result,
}
use aws_kms_demo.Base.{ok, err, ok_or, ◌>>=◌}
use aws_kms_demo.Text.{strip_prefix, is_empty}
use aws_kms_demo.Text.Split.{split_once}
use aws_kms_demo.Text.Number.{parse_u32}

pub data Endpoint : Type 0 where
  tcp : Str → Endpoint
  vsock : ℕ → ℕ → Endpoint

parse_cid_port : Str → Result Endpoint
parse_cid_port rest = do
  parts ← ok_or (split_once b':' rest) (txt "vsock endpoint must be vsock:cid:port")
  cid ← ok_or (parse_u32 parts.0) (txt "invalid vsock cid '" ++ (parts.0 ++ txt "'"))
  port ← ok_or (parse_u32 parts.1) (txt "invalid vsock port '" ++ (parts.1 ++ txt "'"))
  ok (vsock cid port)

-- The second `if let` of `parse`, and the error after it.
parse_vsock : Str → Result Endpoint
unfolding parse_cid_port
parse_vsock value = elim (strip_prefix (txt "vsock:") value) [
  | some rest ↦ parse_cid_port rest
  | none ↦
      err (
        txt "unsupported endpoint '"
        ++ (value ++ txt "', expected tcp:host:port or vsock:cid:port"))
]

unfoldable pub parse : Str → Result Endpoint
unfolding parse_vsock
parse value = elim (strip_prefix (txt "tcp:") value) [
  | some addr ↦
      if is_empty addr then err (txt "tcp endpoint must be tcp:host:port") else ok (tcp addr)
  | none ↦ parse_vsock value
]
