-- ===== src/Process.antt =====
-- The environment of the programs: `load_environment` (src/bin_support.rs).
use aws_kms_demo.Base.{
  Str, txt, Result, ok, err, panic, Option, none, some, Bool, ◌++◌, if◌then◌else◌,
}
use aws_kms_demo.Effects.{M}
use aws_kms_demo.Config.{Environment}

-- The variables, and the crate dotenvy, which adds those of a file to them: the file at a path, or
-- the one that it searches for.
pub record Process (W : Type 0) : Type 0 where
  pub vars : W → Environment
  pub from_path : Str → M W (Unit {0})
  pub dotenv : M W (Unit {0})
  pub is_file : Str → W → Bool

abbrev eif_env_path : Str
eif_env_path = txt "/app/.env"

-- `map_err(|error| format!(…))`
failed_to_load : {W : Type 0} → Str → Result (Unit {0}) × W → Result (Unit {0}) × W
failed_to_load what (ok _, w) = (ok tt, w)
failed_to_load what (err e, w) = (err (txt "failed to load " ++ (what ++ (txt ": " ++ e))), w)
failed_to_load what (panic e, w) = (panic e, w)

module _ {W : Type 0} (process : Process W) where
  unfoldable pub load_image_file : M W (Unit {0})
  unfolding failed_to_load
  load_image_file w =
      if process.is_file eif_env_path w
      then failed_to_load eif_env_path (process.from_path eif_env_path w)
      else (ok tt, w)

  -- `if dotenvy::dotenv().is_ok()`
  unfoldable pub or_image_file : Result (Unit {0}) × W → Result (Unit {0}) × W
  unfolding load_image_file
  or_image_file (ok _, w) = (ok tt, w)
  or_image_file (err e, w) = load_image_file w
  or_image_file (panic e, w) = (panic e, w)

  unfoldable pub load_from : Option Str → M W (Unit {0})
  unfolding failed_to_load or_image_file
  load_from (some path) w =
      failed_to_load (txt "APP_ENV_FILE '" ++ (path ++ txt "'")) (process.from_path path w)
  load_from none w = or_image_file (process.dotenv w)

  unfoldable pub load_environment : M W (Unit {0})
  unfolding load_from
  load_environment w = load_from (process.vars w (txt "APP_ENV_FILE")) w
