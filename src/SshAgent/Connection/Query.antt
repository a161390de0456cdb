-- ===== src/SshAgent/Connection/Query.antt =====
-- The answer to a query for extensions.
use agentknock_cli.Prelude.{
  ℕ, zero, suc, ◌+◌, ◌≤◌, ◌<◌, ◌^◌, ◌≡◌, ◌↔◌, refl, ap, ◌∙◌, sym, subst, arith, true, ◌&&◌,
  Bool-cases, inl, inr, Option, none, some, some-injective, List, [], ◌∷◌, ◌++◌, ok, Result-cases,
  All, length, length-append, codes, ◌==◌, nat_eq, text_eq, text_beq_iff, text_beq_refl,
  nat_beq_iff, and-eq-true,
}
use agentknock_cli.SshAgent.Wire.{
  Bytes, IsBytes, u32, string, byte, to_be_bytes, put_string, put_u32,
}
use agentknock_cli.SshAgent.Wire.RoundTrip.{encoded, string-encoded, string-eq-ok}
use agentknock_cli.SshAgent.Connection.{
  strings_only, query_contents, valid_extension_query_response, extension_query_response,
  keep_valid, or_answer, query_answer,
}

-- Strings one after the other.
pub encoded_all : List Bytes → Bytes
encoded_all [] = []
encoded_all (value ∷ values) = encoded value ++ encoded_all values

-- A response to the query: the name of the query and the extensions' names.
pub record IsQueryResponse (packet : Bytes) : Type 0 where
  pub names : List Bytes
  pub layout : packet ≡ 29 ∷ (encoded (codes "query") ++ encoded_all names)
  pub names_fit : All (λ name. length name < 2 ^ 32) names

strings_only-step :
    (fuel : ℕ) (input : Bytes) {value rest : Bytes}
    → string input ≡ ok (value, rest)
    → strings_only (suc fuel) input ≡ strings_only fuel rest
unfolding strings_only string u32
strings_only-step fuel [] h = cc
strings_only-step fuel (b ∷ input) h = rw (strings_only, h) refl

strings_only_sound :
    (fuel : ℕ) (input : Bytes)
    → IsBytes input
    → strings_only fuel input ≡ true
    → (names : List Bytes) × (input ≡ encoded_all names) × All (λ name. length name < 2 ^ 32) names
unfolding strings_only encoded_all
strings_only_sound fuel [] b h = ([], refl, tt)
strings_only_sound zero (_ ∷ _) b h = cc
strings_only_sound (suc fuel) (x ∷ input) b h = elim (Result-cases (string (x ∷ input))) [
  | inl ((value, rest), read) ↦
      let (e, fits, _, b') = string-eq-ok (x ∷ input) b read in
      let more = sym (strings_only-step fuel (x ∷ input) read) ∙ h in
      let (names, e', fit) = strings_only_sound fuel rest b' more in
      (value ∷ names, e ∙ ap (λ r. encoded value ++ r) e', (fits, fit))
  | inr (_, failed) ↦ absurd (ground arith)
]

length-encoded :
    (value rest : Bytes) → length (encoded value ++ rest) ≡ 4 + length value + length rest
unfolding to_be_bytes
length-encoded value rest =
    omega
      (arith, length-append (encoded value) rest, length-append (to_be_bytes (length value)) value)

strings_only_complete :
    (names : List Bytes) (fuel : ℕ)
    → All (λ name. length name < 2 ^ 32) names
    → length (encoded_all names) ≤ fuel
    → strings_only fuel (encoded_all names) ≡ true
unfolding encoded_all strings_only
strings_only_complete [] fuel _ _ = refl
strings_only_complete (name ∷ names) zero _ enough =
    absurd (omega (arith, enough, length-encoded name (encoded_all names)))
strings_only_complete (name ∷ names) (suc fuel) (fits, fit) enough =
    strings_only-step fuel (encoded name ++ encoded_all names)
      (string-encoded name (encoded_all names) fits)
    ∙ strings_only_complete names fuel fit
        (omega (arith, enough, length-encoded name (encoded_all names)))

query_contents_sound :
    (response : Bytes)
    → IsBytes response
    → query_contents response ≡ true
    → (names : List Bytes) × (response ≡ encoded (codes "query") ++ encoded_all names)
      × All (λ name. length name < 2 ^ 32) names
unfolding query_contents
query_contents_sound response b h = elim (Result-cases (string response)) [
  | inl ((name, remaining), read) ↦
      let (e, _, _, b') = string-eq-ok response b read in
      let valid : (name == codes "query" && strings_only (length remaining) remaining) ≡ true =
        ground arith in
      let (named, only) = and-eq-true (name == codes "query") _ valid in
      let (names, e', fit) = strings_only_sound (length remaining) remaining b' only in
      (
        names,
        e
            ∙ (ap (λ n. encoded n ++ remaining) ((text_beq_iff name (codes "query")).0 named)
                ∙ ap (λ r. encoded (codes "query") ++ r) e'),
        fit,
      )
  | inr (_, failed) ↦ absurd (ground arith)
]

query_contents_complete :
    (names : List Bytes)
    → All (λ name. length name < 2 ^ 32) names
    → query_contents (encoded (codes "query") ++ encoded_all names) ≡ true
unfolding query_contents
query_contents_complete names fit =
    rw (query_contents, string-encoded (codes "query") (encoded_all names) (omega arith))
      (rw (text_beq_refl (codes "query"))
        (strings_only_complete names (length (encoded_all names)) fit (omega arith)))

cons-cons : {x y : ℕ} {xs ys : Bytes} → x ≡ y → xs ≡ ys → (x ∷ xs) ≡ (y ∷ ys)
cons-cons e e' = cc

-- A response to the query for extensions is accepted exactly if it is the name of the query and
-- strings after it.
pub valid_extension_query_response_iff :
    (packet : Bytes)
    → IsBytes packet
    → (valid_extension_query_response packet ≡ true) ↔ IsQueryResponse packet
unfolding valid_extension_query_response byte
valid_extension_query_response_iff [] b = (λ h. cc, λ q. absurd (let e = q.layout in cc))
valid_extension_query_response_iff (kind ∷ response) (_, b) = (
  λ h.
      let (same, contents) = and-eq-true (kind == 29) _ h in
      let (names, e, fit) = query_contents_sound response b contents in
      record {
        names = names;
        layout = cons-cons ((nat_beq_iff kind 29).0 same) e;
        names_fit = fit;
      },
  λ q.
      subst (λ (p : Bytes). valid_extension_query_response p ≡ true) (sym q.layout)
        (query_contents_complete q.names q.names_fit),
)

query_response-valid :
    (response : Bytes)
    → extension_query_response ≡ some response
    → valid_extension_query_response response ≡ true
unfolding extension_query_response put_string put_u32 valid_extension_query_response byte
    to_be_bytes encoded_all
query_response-valid response h =
    subst (λ (r : Bytes). valid_extension_query_response r ≡ true) (some-injective h)
      (query_contents_complete [] tt)

-- Whatever the upstream agent answers to the query for extensions, the answer that the command gets
-- is written without a panic and is a valid response.
pub query_answer-valid :
    (response : Option Bytes)
    → (answer : Bytes) × (query_answer response ≡ some answer)
      × (valid_extension_query_response answer ≡ true)
unfolding query_answer keep_valid or_answer extension_query_response put_string
query_answer-valid none = (_, refl, query_response-valid _ refl)
query_answer-valid (some response) = elim (Bool-cases (valid_extension_query_response response)) [
  | inl valid ↦ (response, rw valid refl, valid)
  | inr invalid ↦ (_, rw invalid refl, query_response-valid _ refl)
]
