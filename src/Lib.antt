-- ===== src/Lib.antt =====
-- Verification library of aws-kms-demo: an enclave that keeps an Ed25519 private key in S3, wrapped
-- under data keys of two KMS keys, and a broker on the parent instance that gives it settings,
-- credentials and S3 objects.
--
-- The parts, and the files that model them. Paths are from the root of the repository.
-- * Config (src/lib.rs): ParentSettings::from_env and the parsers of its values. The environment is
--   a function from names to values; a HashMap is its list of bindings. Config.Secrets is the Debug
--   and the Drop of AwsCredentials.
-- * Endpoint (src/lib.rs): Endpoint::parse.
-- * Arn (src/lib.rs, src/key_material.rs): kms_region_from_arn, kms_account_from_arn,
--   kms_key_display_id, kms_key_storage_id, sha256_hex.
-- * Frame (src/lib.rs): write_json_frame and read_json_frame. serde_json is a codec, a parameter.
-- * S3 (src/key_material.rs): load_s3_object and save_s3_object_if_absent, with their retries.
--   S3.Program is the conditional save by the requests that it sends, and S3.Interleaving a system of
--   any number of threads whose requests interleave, on an S3 that may fail or lose its replies.
-- * Crypto (src/lib.rs): encrypt_private_key, decrypt_private_key and the checks on lengths.
-- * Broker (src/lib.rs): the body of the thread that serve_enclave_broker spawns for a connection.
--   It reads a frame, checks the peer's CID, the mode and the S3 target, uses S3, and answers.
--   Broker.Providers is the set-up of the credentials, Broker.Loop the whole serve_enclave_broker
--   with its accept loop, Broker.Main enclave_broker_main (src/bin_support.rs).
-- * Sockets (src/lib.rs): connect_endpoint, listen_endpoint, Listener::accept and the module
--   linux_vsock, for both values of cfg(target_os = "linux").
-- * Rpc (src/lib.rs): EnclaveGrpcService, serve_enclave_rpc and request_enclave_hello.
-- * Process (src/bin_support.rs): load_environment over the crate dotenvy.
-- * Client (src/lib.rs, src/key_material.rs): request_broker and its callers in the enclave.
-- * Loopback (src/lib.rs, src/key_material.rs): the client and the broker's thread joined by a
--   stream of bytes in each direction, over a world that holds what is under way. The broker's
--   thread runs once the enclave waits for an answer. A lawful peer (IsLawfulPeer) has a
--   conditional store, a host that leaves the streams alone, codecs that read back what they write,
--   and connections that start empty.
-- * Kms (src/key_material.rs) and Kms.Nitro (src/nitro_kms.rs): KmsDataKeyClient, the SDK's requests
--   and the Nitro client over the C functions of native/nitro_kms_shim.c, which are parameters.
-- * KeyMaterial (src/key_material.rs): the three documents and their checks; Restore is
--   restore_key_material, Initialize is initialize_key_material, Lifecycle the one after the other.
-- * Server (src/key_material.rs, src/bin_support.rs): run_decrypt_server_tee and
--   decrypt_server_tee_main.
-- * Build (build.rs): the build script, with what it prints for cargo.
-- Base, Text and Effects hold what the parts share. Text and Base model the parts of Rust's standard
-- library that the code uses; a text is the list of its code points. Effects has the computations on
-- a world W: W → Result A × W, where an error or a panic keeps what was done before it. W and every
-- function on it that is not the repository's own (the S3 client, the calls of libc and std::net, KMS,
-- tonic, random bytes) are parameters, and a theorem names what it takes of them: IsConditionalStore
-- of S3 without other writers, IsInverse of the ciphers and base64, IsDigest of SHA-256, IsFaithful
-- of serde_json, IsDescriptorTable of the operating system.
--
-- Bounds: the loops of S3 run through `1..=4`, and the model recurses on the rounds that are left,
-- four at the start, so the panic behind the loop stays in the model and S3.Runs shows that it is
-- not reached. The accept loop has no bound in the code; the model runs it through n rounds
-- and gives none where it still runs, and Broker.Loop.Ends says for which n it has ended. Whether
-- a thread can be started for a connection is a parameter, spawn; the threads run one after the
-- other there, and S3.Interleaving has their S3 requests in any order. Every other loop is over a
-- list. A u32 is a number below 2 ^ 32; parsers refuse others.
--
-- Not modelled: the zeroing of buffers in memory, messages to the terminal, the C shim and the
-- scripts.
-- Tests run the definitions on concrete inputs.
pub mod Base
pub mod Text
pub mod Endpoint
pub mod Arn
pub mod Config
pub mod Effects
pub mod Frame
pub mod S3
pub mod Loopback
pub mod Process
pub mod Rpc
pub mod Sockets
pub mod Crypto
pub mod Broker
pub mod Client
pub mod Kms
pub mod KeyMaterial
pub mod Server
pub mod Build
pub mod Tests
