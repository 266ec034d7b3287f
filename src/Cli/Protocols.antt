-- ===== src/Cli/Protocols.antt =====
-- src/cli/args.cpp: lemmas on `ParseProtocol` and `ProtocolToString`.
use titan_bench.Base.{
  ℕ, ◌≡◌, refl, ap, ap₂, subst, if_holds, ◌∙◌, Bool, true, ◌&&◌, [], ◌∷◌, Option, none, some, ◌==◌,
  arith, Bytes, codes, same_text,
}
use mathlib.Core.Logic.{◌↔◌}
use titan_bench.Cli.Options.{
  Protocol, k_http, k_https, k_tcp, k_udp, parse_protocol, protocol_to_string,
}

head_same : (a b : ℕ) (rest : Bool) → (a == b && rest) ≡ true → a ≡ b
head_same a b rest h = ground arith

tail_same : (a b : ℕ) (rest : Bool) → (a == b && rest) ≡ true → rest ≡ true
tail_same a b rest h = ground arith

pub same_text-≡ : (a b : Bytes) → same_text a b ≡ true → a ≡ b
unfolding same_text
same_text-≡ [] [] h = refl
same_text-≡ [] (c ∷ cs) h = cc
same_text-≡ (c ∷ cs) [] h = cc
same_text-≡ (c ∷ cs) (d ∷ ds) h =
    ap₂ (λ x xs. x ∷ xs) (head_same c d _ h) (same_text-≡ cs ds (tail_same c d _ h))

read_name : (p : Protocol) → parse_protocol (protocol_to_string p) ≡ some p
unfolding parse_protocol protocol_to_string same_text
read_name k_http = refl
read_name k_https = refl
read_name k_tcp = refl
read_name k_udp = refl

-- What a reading of a text says: the name of the protocol is the text.
abbrev Named : Bytes → Option Protocol → Type 0
Named text none = Unit
Named text (some p) = text ≡ protocol_to_string p

parse_protocol-Named : (text : Bytes) → Named text (parse_protocol text)
unfolding parse_protocol protocol_to_string
parse_protocol-Named text = if_holds (Named text) _ _ _ (same_text-≡ text (codes "http")) (λ _.
    if_holds (Named text) _ _ _ (same_text-≡ text (codes "https")) (λ _.
      if_holds (Named text) _ _ _ (same_text-≡ text (codes "tcp"))
        (λ _. if_holds (Named text) _ _ _ (same_text-≡ text (codes "udp")) (λ _. tt))))

-- A text is read as a protocol exactly when it is that protocol's name.
pub parse_protocol-protocol_to_string :
    (text : Bytes) (p : Protocol) → (parse_protocol text ≡ some p) ↔ (text ≡ protocol_to_string p)
parse_protocol-protocol_to_string text p =
    (λ h. subst (Named text) h (parse_protocol-Named text), λ h. ap parse_protocol h ∙ read_name p)
