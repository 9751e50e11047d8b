-- ===== src/Tests/Building.antt =====
-- The build script on one environment, whose world is the list of lines that it printed.
use aws_kms_demo.Base.{
  Str, txt, ok, panic, none, some, List, [], ◌∷◌, list_eq, ◌≡◌, refl, if◌then◌else◌,
}
use aws_kms_demo.Config.{Environment}
use aws_kms_demo.Build.{Script, join, link_lines, build_main}

abbrev nitro_environment : Environment
nitro_environment name =
    if list_eq name (txt "CARGO_FEATURE_NITRO_ENCLAVE")
    then some (txt "1")
    else if list_eq name (txt "CARGO_CFG_TARGET_OS")
    then some (txt "linux")
    else if list_eq name (txt "NITRO_SDK_LIBS")
    then some (txt "s2n, nsm,,")
    else none

abbrev lines_script : Environment → Script (List Str)
lines_script env = record {
  println = λ line lines. line ∷ lines;
  var = λ lines. env;
  var_os = λ lines. env;
  set_var = λ name value lines. lines;
  protoc_bin_path = λ lines. (ok (txt "/protoc"), lines);
  compile_protos = λ path lines. (ok tt, txt "protos" ∷ lines);
  compile = λ file include library warnings lines. (ok tt, include ∷ lines);
}

join_run : join (txt "/opt/") (txt "lib") ≡ txt "/opt/lib"
unfolding join txt
join_run = refl

build_run : (build_main (lines_script nitro_environment) []).0 ≡ ok tt
unfolding build_main txt list_eq
build_run = refl

abbrev mac_environment : Environment
mac_environment name =
    if list_eq name (txt "CARGO_CFG_TARGET_OS") then some (txt "macos") else nitro_environment name

refused_run :
    (build_main (lines_script mac_environment) []).0
    ≡ panic (txt "the nitro-enclave feature is supported only for Linux targets")
unfolding build_main txt list_eq
refused_run = refl

link_lines_run :
    link_lines (lines_script nitro_environment) (txt "/usr/local/lib") []
    ≡ txt "cargo:rustc-link-search=native=/usr/local/lib"
      ∷ txt "cargo:rustc-link-lib=s2n"
      ∷ txt "cargo:rustc-link-lib=nsm"
      ∷ []
unfolding aws_kms_demo.Build.link_lines txt list_eq aws_kms_demo.Config.Parse.parse_csv
    aws_kms_demo.Text.Split.split aws_kms_demo.Text.trim aws_kms_demo.Text.is_empty
link_lines_run = refl
