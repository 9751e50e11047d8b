-- ===== src/Endpoint/Laws.antt =====
-- Which texts `Endpoint::parse` accepts (src/lib.rs), and printing an endpoint in its own syntax.
use aws_kms_demo.Base.{
  ℕ, Str, txt, none, some, [], ◌∷◌, ◌++◌, ◌≡◌, ◌≢◌, ◌↔◌, ◌<◌, ◌^◌, inl, inr, refl, ap, sym, subst,
  ok, >>=-eq-ok, ok_or-eq-ok, arith, All, Option-cases,
}
use aws_kms_demo.Text.{strip_prefix, is_empty}
use aws_kms_demo.Text.Split.{Lacks, split_once_sound, split_once_complete}
use aws_kms_demo.Text.Prefix.{strip_prefix_append, strip_prefix_sound}
use aws_kms_demo.Text.Number.{to_string, parse_u32}
use aws_kms_demo.Text.Number.Decimal.{IsDigit, to_string-IsDigit, parse_u32-to_string}
use aws_kms_demo.Text.Number.Value.{IsU32, parse_u32_sound, parse_u32_iff}
use aws_kms_demo.Endpoint.{Endpoint, tcp, vsock, parse, parse_vsock, parse_cid_port}

-- The texts that stand for an endpoint.
abbrev pub Denotes : Str → Endpoint → Type 0
Denotes value (tcp addr) = (value ≡ txt "tcp:" ++ addr) × (addr ≢ [])
Denotes value (vsock cid port) =
    (c : Str) × (p : Str) × (value ≡ txt "vsock:" ++ (c ++ b':' ∷ p))
    × Lacks b':' c
    × IsU32 c cid
    × IsU32 p port

parse_tcp : (addr : Str) → addr ≢ [] → parse (txt "tcp:" ++ addr) ≡ ok (tcp addr)
unfolding parse is_empty
parse_tcp [] ne = absurd (ne refl)
parse_tcp (c ∷ addr) ne = rw (strip_prefix_append (txt "tcp:") (c ∷ addr), parse)

-- A text that begins with the one scheme does not begin with the other.
tcp_vsock_apart : (s : Str) → strip_prefix (txt "tcp:") (txt "vsock:" ++ s) ≡ none
unfolding strip_prefix txt
tcp_vsock_apart s = refl

parse_of_vsock : (s : Str) → parse (txt "vsock:" ++ s) ≡ parse_vsock (txt "vsock:" ++ s)
unfolding parse
parse_of_vsock s = rw (tcp_vsock_apart s, parse)

parse_vsock_complete :
    (c p : Str) (cid port : ℕ)
    → Lacks b':' c
    → parse_u32 c ≡ some cid
    → parse_u32 p ≡ some port
    → parse (txt "vsock:" ++ (c ++ b':' ∷ p)) ≡ ok (vsock cid port)
unfolding parse_vsock
parse_vsock_complete c p cid port free hc hp =
    rw (parse_of_vsock, parse_vsock, strip_prefix_append, split_once_complete b':' c p free, hc, hp)

parse_cid_port_sound :
    (rest : Str) (e : Endpoint) → parse_cid_port rest ≡ ok e → Denotes (txt "vsock:" ++ rest) e
unfolding parse_cid_port
parse_cid_port_sound rest e h =
    let ((c, p), split, h₁) = >>=-eq-ok _ _ h in
    let (cid, hc, h₂) = >>=-eq-ok _ _ h₁ in
    let (port, hp, h₃) = >>=-eq-ok _ _ h₂ in
    let (whole, free) = split_once_sound b':' rest c p (ok_or-eq-ok _ _ split) in
    let same : vsock cid port ≡ e = cc in
    subst (Denotes (txt "vsock:" ++ rest)) same (
      c,
      p,
      ap (λ r. txt "vsock:" ++ r) whole,
      free,
      parse_u32_sound c cid (ok_or-eq-ok _ _ hc),
      parse_u32_sound p port (ok_or-eq-ok _ _ hp),
    )

parse_vsock_sound : (value : Str) (e : Endpoint) → parse_vsock value ≡ ok e → Denotes value e
unfolding parse_vsock
parse_vsock_sound value e h = elim (Option-cases (strip_prefix (txt "vsock:") value)) [
  | inl missed ↦ ground arith
  | inr (rest, found) ↦
      subst (λ v. Denotes v e) (sym (strip_prefix_sound _ value rest found))
        (parse_cid_port_sound rest e (rw (found, parse_vsock) at h))
]

parse_sound : (value : Str) (e : Endpoint) → parse value ≡ ok e → Denotes value e
unfolding parse is_empty
parse_sound value e h = elim (Option-cases (strip_prefix (txt "tcp:") value)) [
  | inl missed ↦ parse_vsock_sound value e (rw (missed, parse) at h)
  | inr ([], found) ↦ ground arith
  | inr (c ∷ addr, found) ↦
      let same : tcp (c ∷ addr) ≡ e = ground arith in
      subst (Denotes value) same (strip_prefix_sound _ value (c ∷ addr) found, λ nil. cc)
]

parse_complete : (value : Str) (e : Endpoint) → Denotes value e → parse value ≡ ok e
parse_complete value (tcp addr) (whole, ne) = rw whole (parse_tcp addr ne)
parse_complete value (vsock cid port) (c, p, whole, free, hc, hp) = rw whole (
    parse_vsock_complete c p cid port free ((parse_u32_iff c cid).1 hc)
      ((parse_u32_iff p port).1 hp))

-- Endpoint::parse accepts exactly tcp: with an address that is not empty, and vsock: with two u32
-- numbers around the first colon, in decimal digits with a plus sign before them or none, and
-- returns that endpoint.
pub parse_iff : (value : Str) (e : Endpoint) → (parse value ≡ ok e) ↔ Denotes value e
parse_iff value e = (parse_sound value e, parse_complete value e)

-- An endpoint in the syntax that `parse` reads.
abbrev pub format : Endpoint → Str
format (tcp addr) = txt "tcp:" ++ addr
format (vsock cid port) = txt "vsock:" ++ (to_string cid ++ b':' ∷ to_string port)

abbrev pub IsAddress : Endpoint → Type 0
IsAddress (tcp addr) = addr ≢ []
IsAddress (vsock cid port) = (cid < 2 ^ 32) × (port < 2 ^ 32)

IsDigit-Lacks : (s : Str) → All IsDigit s → Lacks b':' s
IsDigit-Lacks [] h = tt
IsDigit-Lacks (c ∷ s) (d, h) = (omega arith, IsDigit-Lacks s h)

-- An endpoint with an address that is not empty, or with a CID and port below 2 ^ 32, is read back
-- by Endpoint::parse from its own print.
pub parse-format : (e : Endpoint) → IsAddress e → parse (format e) ≡ ok e
parse-format (tcp addr) h = parse_tcp addr h
parse-format (vsock cid port) h =
    parse_vsock_complete (to_string cid) (to_string port) cid port
      (IsDigit-Lacks _ (to_string-IsDigit cid)) (parse_u32-to_string cid h.0)
      (parse_u32-to_string port h.1)
