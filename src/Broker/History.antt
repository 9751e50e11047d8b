-- ===== src/Broker/History.antt =====
-- The connections that the loop of `serve_enclave_broker` accepts, one after the other (src/lib.rs).
use aws_kms_demo.Base.{
  ℕ, Str, Bytes, Option, none, some, true, false, ◌&&◌, list_eq, list_eq_iff, ltb, length, ◌≡◌,
  refl, sym, ap, ◌∙◌, subst, inl, inr, arith, Bool-cases,
}
use aws_kms_demo.Effects.{Keeps, bind-Keeps, and_then_holds, lift, guard}
use aws_kms_demo.Config.Types.{ParentSettings, BrokerRequest, BrokerResponse}
use aws_kms_demo.Frame.{
  Codec, max_json_frame_length, too_long, to_be_bytes, u32_try_from, Writer, Reader, from_be_bytes,
  read_json_frame, write_json_frame,
}
use aws_kms_demo.S3.Store.{Contents, update, Written}
use aws_kms_demo.Broker.{Host, Providers, respond, serve_connection}
use aws_kms_demo.Broker.Target.{IsBelow}
use aws_kms_demo.Broker.Access.{IsLawfulHost, Confined, respond-Confined}

-- Where an update is seen, it is the object that was written.
update_elsewhere :
    (c : Contents) (bucket key b k : Str) (body : Bytes)
    → (list_eq b bucket && list_eq k key) ≡ false
    → update c bucket key body b k ≡ c b k
update_elsewhere c bucket key b k body h = rw h

same_object :
    (bucket key b k : Str) → (list_eq b bucket && list_eq k key) ≡ true → (b ≡ bucket) × (k ≡ key)
same_object bucket key b k h = ground (arith, list_eq_iff b bucket, list_eq_iff k key)

Written-keeps :
    (bucket key b k : Str) (body held : Bytes) (before after : Contents)
    → Written bucket key body before after
    → before b k ≡ some held
    → after b k ≡ some held
Written-keeps bucket key b k body held before after (inl same) h = ap (λ c. c b k) same ∙ h
Written-keeps bucket key b k body held before after (inr (absent, made)) h =
    elim (Bool-cases (list_eq b bucket && list_eq k key)) [
      | inl here ↦
          let (p, q) = same_object bucket key b k here in
          let gone : before b k ≡ none =
            ap (λ x. before x k) p ∙ (ap (λ y. before bucket y) q ∙ absent) in
          absurd (cc)
      | inr elsewhere ↦
          ap (λ c. c b k) made ∙ (update_elsewhere before bucket key b k body elsewhere ∙ h)
    ]

Written-outside :
    (bucket key b k : Str) (body : Bytes) (before after : Contents)
    → Written bucket key body before after
    → ((b ≡ bucket) × (k ≡ key) → ⊥)
    → after b k ≡ before b k
Written-outside bucket key b k body before after (inl same) h = ap (λ c. c b k) same
Written-outside bucket key b k body before after (inr (absent, made)) h =
    elim (Bool-cases (list_eq b bucket && list_eq k key)) [
      | inl here ↦ absurd (h (same_object bucket key b k here))
      | inr elsewhere ↦ ap (λ c. c b k) made ∙ update_elsewhere before bucket key b k body elsewhere
    ]

module _ (s : ParentSettings) (b k : Str) where
  pub Confined-keeps :
      (held : Bytes) (before after : Contents)
      → Confined s before after
      → before b k ≡ some held
      → after b k ≡ some held
  Confined-keeps held before after (inl same) h = ap (λ c. c b k) same ∙ h
  Confined-keeps held before after (inr (_, (bucket, key, body, _, w))) h =
      Written-keeps bucket key b k body held before after w h

  pub Confined-outside :
      (before after : Contents)
      → Confined s before after
      → (IsBelow b k s.s3_bucket s.s3_prefix → ⊥)
      → after b k ≡ before b k
  Confined-outside before after (inl same) h = ap (λ c. c b k) same
  Confined-outside before after (inr (_, (bucket, key, body, below, w))) h =
      Written-outside bucket key b k body before after w (λ (p, q). h (
        subst (λ x. IsBelow x k s.s3_bucket s.s3_prefix) (sym p)
          (subst (λ y. IsBelow bucket y s.s3_bucket s.s3_prefix) (sym q) below)))

module _ {W : Type 0} (contents : W → Contents) where
  -- A stream whose bytes do not pass through S3.
  pub record IsStream (reader : Reader W) (writer : Writer W) : Type 0 where
    pub reads : (n : ℕ) (w : W) → contents (reader.read_exact n w).1 ≡ contents w
    pub writes : (bytes : Bytes) (w : W) → contents (writer.write_all bytes w).1 ≡ contents w
    pub flushes : (w : W) → contents (writer.flush w).1 ≡ contents w

  read_json_frame-Keeps :
      {T : Type 0} (codec : Codec T) (reader : Reader W) (writer : Writer W)
      → IsStream reader writer
      → Keeps contents (read_json_frame codec reader)
  unfolding read_json_frame
  read_json_frame-Keeps codec reader writer q =
      bind-Keeps contents (reader.read_exact 4) _ (q.reads 4) (λ header.
        bind-Keeps contents
          (guard (ltb max_json_frame_length (from_be_bytes header))
            (too_long (from_be_bytes header)))
          _ (λ w. refl)
          (λ _.
            bind-Keeps contents (reader.read_exact (from_be_bytes header)) _
              (q.reads (from_be_bytes header)) (λ payload. λ w. refl)))

  write_json_frame-Keeps :
      {T : Type 0} (codec : Codec T) (reader : Reader W) (writer : Writer W) (value : T)
      → IsStream reader writer
      → Keeps contents (write_json_frame codec writer value)
  unfolding write_json_frame
  write_json_frame-Keeps codec reader writer value q =
      bind-Keeps contents (lift (codec.to_vec value)) _ (λ w. refl)
        (λ payload.
          bind-Keeps contents
            (guard (ltb max_json_frame_length (length payload)) (too_long (length payload))) _
            (λ w. refl)
            (λ _.
              bind-Keeps contents (lift (u32_try_from (length payload))) _ (λ w. refl)
                (λ len.
                  bind-Keeps contents (writer.write_all (to_be_bytes len)) _
                    (q.writes (to_be_bytes len))
                    (λ _.
                      bind-Keeps contents (writer.write_all payload) _ (q.writes payload)
                        (λ _. q.flushes)))))

module _ {W : Type 0} (host : Host W) (contents : W → Contents) (L : IsLawfulHost host contents)
    (providers : Providers) (s : ParentSettings) (requests : Codec BrokerRequest)
    (responses : Codec BrokerResponse) (allowed : Option ℕ) where
  pub serve_connection-Confined :
      (reader : Reader W) (writer : Writer W) (peer : Option ℕ)
      → IsStream contents reader writer
      → (w : W)
      → Confined s (contents w) (
          contents
            (serve_connection host providers s requests responses reader writer allowed peer w).1)
  unfolding serve_connection
  serve_connection-Confined reader writer peer q w =
      let (request, w₁) = read_json_frame requests reader w in
      let same = read_json_frame-Keeps contents requests reader writer q w in
      let answered : Confined s (contents w)
          (contents (respond host providers s allowed peer request w₁).1) =
        subst (λ c. Confined s c (contents (respond host providers s allowed peer request w₁).1))
          same (respond-Confined host contents L providers s allowed peer request w₁) in
      and_then_holds (λ (v : W). Confined s (contents w) (contents v))
        (respond host providers s allowed peer request w₁) _ answered
        (λ response _.
          subst (λ c. Confined s (contents w) c)
            (sym (write_json_frame-Keeps contents responses reader writer response q _)) answered)

  -- Any number of connections, of any peers, each over its own stream.
  pub data Served : W → W → Type 0 where
    idle : {w : W} → Served w w
    connection :
        {w w' : W} {reader : Reader W} {writer : Writer W} (peer : Option ℕ)
        → IsStream contents reader writer
        → Served
            (serve_connection host providers s requests responses reader writer allowed peer w).1
            w'
        → Served w w'

  -- On a lawful host, an object that S3 holds is still there with the same body after any number
  -- of connections, of any peers and with any bytes, served one after the other over streams that
  -- do not pass through S3.
  pub Served-keeps :
      {w w' : W} (b k : Str) (held : Bytes)
      → Served w w'
      → contents w b k ≡ some held
      → contents w' b k ≡ some held
  Served-keeps b k held idle h = h
  Served-keeps {w} b k held (connection {reader} {writer} peer q later) h =
      Served-keeps b k held later
        (Confined-keeps s b k held _ _ (serve_connection-Confined reader writer peer q w) h)

  -- On a lawful host, what S3 holds under a key that is not below the configured prefix in the
  -- configured bucket is the same after any number of connections, served one after the other over
  -- streams that do not pass through S3.
  pub Served-outside :
      {w w' : W} (b k : Str)
      → Served w w'
      → (IsBelow b k s.s3_bucket s.s3_prefix → ⊥)
      → contents w' b k ≡ contents w b k
  Served-outside b k idle h = refl
  Served-outside {w} b k (connection {reader} {writer} peer q later) h =
      Served-outside b k later h
      ∙ Confined-outside s b k _ _ (serve_connection-Confined reader writer peer q w) h
