-- ===== src/KeyMaterial/Initialize/Upload.antt =====
-- An object that was saved, read back and verified (src/key_material.rs).
use aws_kms_demo.Base.{ok_or-eq-ok, Str, Bytes, txt, ok, some, ok_or, ◌++◌, ◌≡◌, ap, ◌∙◌}
use aws_kms_demo.Effects.{bind_elim, lift_elim}
use aws_kms_demo.Endpoint.{Endpoint}
use aws_kms_demo.Arn.{sha256_hex}
use aws_kms_demo.Config.Types.{ParentSettings}
use aws_kms_demo.Client.{client_load_object, client_save_object_if_absent}
use aws_kms_demo.Kms.{KmsDataKeyClient}
use aws_kms_demo.KeyMaterial.{Enclave}
use aws_kms_demo.KeyMaterial.Checks.{verify_sha256_iff}
use aws_kms_demo.KeyMaterial.Initialize.{verify_uploaded_object, save_and_verify}

module _ {W : Type 0} (tee : Enclave W) (endpoint : Endpoint) (client : KmsDataKeyClient)
    (s : ParentSettings) where
  -- A body that the broker saved under a key, and read back with the stated hash.
  pub record Uploaded (key : Str) (body : Bytes) (hash : Str) : Type 0 where
    pub before : W
    pub between : W
    pub after : W
    pub save :
        client_save_object_if_absent tee.net endpoint s.s3_bucket key body before ≡ (ok tt, between)
    pub loaded : Bytes
    pub load :
        client_load_object tee.net endpoint s.s3_bucket key between ≡ (ok (some loaded), after)
    pub intact : sha256_hex tee.crypto.sha256 loaded ≡ hash

  pub save_and_verify-Uploaded :
      (key : Str) (body : Bytes) (hash : Str) (w w' : W) (u : Unit {0})
      → save_and_verify tee endpoint client s key body hash w ≡ (ok u, w')
      → Uploaded key body hash
  unfolding save_and_verify verify_uploaded_object
  save_and_verify-Uploaded key body hash w w' u h =
      bind_elim (client_save_object_if_absent tee.net endpoint s.s3_bucket key body) _ w w' h
        λ _ v saving k₁.
          bind_elim (client_load_object tee.net endpoint s.s3_bucket key) _ v w' k₁
            λ found v₂ loading k₂.
              lift_elim
                (ok_or found (txt "uploaded object disappeared before verification: " ++ key)) _ v₂
                w' k₂
                λ loaded present k₃. record {
                  before = w;
                  between = v;
                  after = v₂;
                  save = saving;
                  loaded = loaded;
                  load = loading ∙ ap (λ r. (ok r, v₂)) (ok_or-eq-ok found _ present);
                  intact =
                      (verify_sha256_iff tee.crypto (txt "uploaded object") loaded hash).0
                        (ap (λ r. r.0) k₃);
                }
