-- ===== src/Loopback/Publish.antt =====
-- `initialize_key_material` (src/key_material.rs) through the broker (src/lib.rs).
use aws_kms_demo.Base.{Bytes, ok, some, List, ◌≡◌, subst}
use aws_kms_demo.Config.Types.{ParentSettings, init_key}
use aws_kms_demo.Endpoint.{Endpoint}
use aws_kms_demo.S3.Store.{Contents}
use aws_kms_demo.Broker.Target.{IsBelow}
use aws_kms_demo.Client.{Network, client_save_object_if_absent}
use aws_kms_demo.Kms.{KmsDataKeyClient}
use aws_kms_demo.KeyMaterial.{
  Enclave, ObjectReference, RecoveryObjectReference, RestoredKeyPair, object_key,
  manifest_file_name,
}
use aws_kms_demo.KeyMaterial.Initialize.{manifest_of, initialize_key_material}
use aws_kms_demo.KeyMaterial.Initialize.Sealing.{AllSealed}
use aws_kms_demo.KeyMaterial.Initialize.Commit.{initialize_key_material-IsCommitted}
use aws_kms_demo.Loopback.{Wire, Peer, network}
use aws_kms_demo.Loopback.Storage.{IsLawfulPeer, client_save-holds}

module _ {W : Type 0} (peer : Peer W) (held : W → Contents) (L : IsLawfulPeer peer held)
    (tee : Enclave (Wire W)) (joined : tee.net ≡ network peer) (endpoint : Endpoint)
    (client : KmsDataKeyClient) (s : ParentSettings) where
  -- S3 holds a manifest of the key pair, which lists a sealed object of every configured KMS key.
  abbrev pub IsPublished : RestoredKeyPair → W → Type 0
  IsPublished p w =
      (references : List RecoveryObjectReference) × (public_object : ObjectReference)
      × (manifest : Bytes) × AllSealed tee endpoint client s p.public_key s.kms_keys references
      × (tee.manifests.to_vec (manifest_of p.fingerprint public_object references) ≡ ok manifest)
      × (held w s.s3_bucket (object_key s.s3_prefix manifest_file_name) ≡ some manifest)

  -- On a lawful peer, where initialize_key_material over the network to the broker returns a key
  -- pair, the broker is in init-key mode, the manifest's key is below the broker's configured
  -- prefix in its configured bucket, and S3 holds there, in the end, a manifest with the pair's
  -- fingerprint that lists for every configured KMS key, in order, a sealed object with the pair's
  -- public key.
  pub initialize_key_material-IsPublished :
      (x x' : Wire W) (p : RestoredKeyPair)
      → initialize_key_material tee endpoint client s x ≡ (ok p, x')
      → (peer.settings.startup_mode ≡ init_key)
        × IsBelow s.s3_bucket
            (object_key s.s3_prefix manifest_file_name)
            peer.settings.s3_bucket
            peer.settings.s3_prefix
        × IsPublished p x'.0
  initialize_key_material-IsPublished x x' p h =
      let done = initialize_key_material-IsCommitted tee endpoint client s x x' p h in
      let (mode, below, stored) =
        client_save-holds peer held L endpoint s.s3_bucket
          (object_key s.s3_prefix manifest_file_name) done.manifest done.almost x'
          (subst
            (λ (net : Network (Wire W)).
              client_save_object_if_absent net endpoint s.s3_bucket
                (object_key s.s3_prefix manifest_file_name) done.manifest done.almost
              ≡ (ok tt, x'))
            joined done.commit) in
      (
        mode,
        below,
        (
          done.references, done.public_object, done.manifest, done.sealed, done.manifest_printed,
          stored,
        ),
      )
