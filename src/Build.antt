-- ===== src/Build.antt =====
-- The build script (src/build.rs).
use aws_kms_demo.Base.{
  ℕ, ◌==◌, Str, txt, Bool, true, false, not, Option, none, some, List, [], ◌∷◌, ◌++◌, map, reverse,
  list_eq, if◌then◌else◌, Result, ok, err, panic,
}
use aws_kms_demo.Effects.{M, and_then}
use aws_kms_demo.Config.{Environment, is_some, unwrap_or}
use aws_kms_demo.Config.Parse.{parse_csv}

-- What the script does outside of itself: its lines on standard output, which cargo reads, the
-- environment, and the crates protoc_bin_vendored, tonic_prost_build and cc. `var_os` also gives
-- the values that are not valid Unicode.
pub record Script (W : Type 0) : Type 0 where
  pub println : Str → W → W
  pub var : W → Environment
  pub var_os : W → Environment
  pub set_var : Str → Str → W → W
  pub protoc_bin_path : M W Str
  pub compile_protos : Str → M W (Unit {0})
  pub compile : (file include library : Str) (warnings : Bool) → M W (Unit {0})

-- `Result::expect`
abbrev expect : {W A : Type 0} → Str → Result A × W → Result A × W
expect what (ok a, w) = (ok a, w)
expect what (err e, w) = (panic (what ++ (txt ": " ++ e)), w)
expect what (panic e, w) = (panic e, w)

-- `Path::join` with a relative path that is not empty.
abbrev joined : List ℕ → Str → Str → Str
joined [] path item = item
joined (c ∷ cs) path item = if c == b'/' then path ++ item else path ++ (b'/' ∷ item)

unfoldable pub join : Str → Str → Str
join path item = joined (reverse path) path item

abbrev default_libraries : Str
default_libraries =
    txt
      "aws-nitro-enclaves-sdk-c,aws-c-auth,aws-c-http,aws-c-io,aws-c-compression,aws-c-cal,aws-c-sdkutils,aws-c-common,s2n,nsm,json-c,crypto"

-- `env::var("CARGO_CFG_TARGET_OS").as_deref() != Ok("linux")`
abbrev is_linux : Option Str → Bool
is_linux none = false
is_linux (some target) = list_eq target (txt "linux")

module _ {W : Type 0} (script : Script W) where
  unfoldable pub print_lines : List Str → W → W
  print_lines [] w = w
  print_lines (line ∷ lines) w = print_lines lines (script.println line w)

  -- The enclave's protocol, in every build.
  unfoldable pub build_protocol : M W (Unit {0})
  unfolding print_lines
  build_protocol w =
      and_then
        (expect (txt "vendored protoc is unavailable") (
          script.protoc_bin_path
            (script.println (txt "cargo:rerun-if-changed=proto/enclave.proto") w)))
        (λ protoc w1.
          and_then
            (expect (txt "failed to compile enclave gRPC proto") (
              script.compile_protos (txt "proto/enclave.proto")
                (script.set_var (txt "PROTOC") protoc w1)))
            (λ _ w2. (
              ok tt,
              print_lines
                  (txt "cargo:rerun-if-changed=native/nitro_kms_shim.c"
                    ∷ txt "cargo:rerun-if-changed=native/nitro_kms_shim.h"
                    ∷ txt "cargo:rerun-if-env-changed=NITRO_SDK_PREFIX"
                    ∷ txt "cargo:rerun-if-env-changed=NITRO_SDK_INCLUDE"
                    ∷ txt "cargo:rerun-if-env-changed=NITRO_SDK_LIB_DIR"
                    ∷ txt "cargo:rerun-if-env-changed=NITRO_SDK_LIBS"
                    ∷ [])
                  w2,
            )))

  -- The lines for the linker: the directory and the libraries.
  unfoldable pub link_lines : Str → W → List Str
  link_lines lib_dir w =
      (txt "cargo:rustc-link-search=native=" ++ lib_dir)
      ∷ map (λ library. txt "cargo:rustc-link-lib=" ++ library)
          (parse_csv (unwrap_or (script.var w (txt "NITRO_SDK_LIBS")) default_libraries))

  -- The C shim over the Nitro SDK, with the feature nitro-enclave.
  unfoldable pub build_shim : M W (Unit {0})
  unfolding print_lines link_lines
  build_shim w =
      let prefix = unwrap_or (script.var w (txt "NITRO_SDK_PREFIX")) (txt "/usr/local") in
      let include =
        unwrap_or (script.var_os w (txt "NITRO_SDK_INCLUDE")) (join prefix (txt "include")) in
      let lib_dir =
        unwrap_or (script.var_os w (txt "NITRO_SDK_LIB_DIR")) (join prefix (txt "lib")) in
      and_then
        (script.compile (txt "native/nitro_kms_shim.c") include (txt "nitro_kms_shim") true w)
        (λ _ w1. (ok tt, print_lines (link_lines lib_dir w1) w1))

  unfoldable pub after_protocol : M W (Unit {0})
  unfolding build_shim
  after_protocol w =
      if not (is_some (script.var_os w (txt "CARGO_FEATURE_NITRO_ENCLAVE")))
      then (ok tt, w)
      else if not (is_linux (script.var w (txt "CARGO_CFG_TARGET_OS")))
      then (panic (txt "the nitro-enclave feature is supported only for Linux targets"), w)
      else build_shim w

  unfoldable pub build_main : M W (Unit {0})
  unfolding build_protocol after_protocol
  build_main w = and_then (build_protocol w) (λ _. after_protocol)
