-- ===== src/Template/Coinbase/Total.antt =====
-- Theorems on `build_coinbase_parts` of src/template.rs under the settings that src/config.rs admits.
use stratum_bee.Base.{
  le→leb, length, length-append, Bytes, Text, ok, >>=-eq-ok, Result-cases, ℕ, ◌+◌, ◌^◌, ◌≤◌, ◌<◌,
  ◌≡◌, refl, inl, inr, Option, none, some, [], ◌∷◌, ◌++◌, arith,
}
use stratum_bee.Config.{Config}
use stratum_bee.Config.Valid.{
  validate_sizes, validate_difficulties, validate_ports, validate_payout, validate_texts, validate,
}
use stratum_bee.Crates.{Crates}
use stratum_bee.Float.{FloatOps}
use stratum_bee.Template.Script.{encode_script_pushdata}
use stratum_bee.Template.Coinbase.{
  CoinbaseParts, coinbase_tag, push_unless_empty, payout_script, coinbase_script_sig,
  decode_commitment, assemble_coinbase, build_coinbase_parts,
}
use stratum_bee.Template.Script.Number.{read_height-encode_coinbase_height}

push_short :
    (bytes out : Bytes)
    → length bytes ≤ 65
    → (pushed : Bytes) × (push_unless_empty bytes out ≡ ok pushed)
      × (length pushed ≤ length out + 66)
unfolding push_unless_empty encode_script_pushdata
push_short [] out h = (out, refl, omega arith)
push_short (b ∷ bytes) out h = (
  (out ++ (length (b ∷ bytes) ∷ [])) ++ (b ∷ bytes),
  rw (le→leb (length (b ∷ bytes)) 75 (omega arith)) refl,
  omega (
    arith,
    length-append (out ++ (length (b ∷ bytes) ∷ [])) (b ∷ bytes),
    length-append out (length (b ∷ bytes) ∷ []),
  ),
)

coinbase_tag_short :
    (pool_tag coinbase_message : Text)
    → length pool_tag ≤ 32
    → length coinbase_message ≤ 32
    → length (coinbase_tag pool_tag coinbase_message) ≤ 65
unfolding coinbase_tag
coinbase_tag_short pool_tag [] h h' = omega arith
coinbase_tag_short pool_tag (b ∷ message) h h' =
    omega (arith, length-append pool_tag (b'/' ∷ (b ∷ message)))

module _ {F : Type 0} (c : Crates) (f : FloatOps F) (config : Config F) where
  -- What the check of the settings leaves.
  record IsAdmitted : Type 0 where
    pub sizes : (config.extranonce1_size ≤ 4) × (config.extranonce2_size ≤ 16)
    pub script : Bytes
    pub payout : payout_script c config ≡ ok script
    pub texts : (length config.pool_tag ≤ 32) × (length config.coinbase_message ≤ 32)

  validate_payout-eq-ok :
      {u : Unit {0}}
      → validate_payout c config ≡ ok u
      → (script : Bytes) × (payout_script c config ≡ ok script)
  unfolding validate_payout payout_script
  validate_payout-eq-ok e = split config.payout_script_hex refl
    where
      split :
          (hex : Option Text)
          → config.payout_script_hex ≡ hex
          → (script : Bytes) × (payout_script c config ≡ ok script)
      split none given =
          elim (Result-cases (c.address_script config.payout_address config.network)) [
            | inl (m, failed) ↦ absurd (ground (arith, e, given, failed))
            | inr (script, paid) ↦ (script, ground (arith, given, paid))
          ]
      split (some hex) given = elim (Result-cases (c.hex_decode hex)) [
        | inl (m, failed) ↦ absurd (ground (arith, e, given, failed))
        | inr (script, paid) ↦ (script, ground (arith, given, paid))
      ]

  validate-IsAdmitted : {u : Unit {0}} → validate c f config ≡ ok u → IsAdmitted
  unfolding validate
  validate-IsAdmitted e =
      let (_, sizes, e1) = >>=-eq-ok (validate_sizes config) _ e in
      let (_, _, e2) = >>=-eq-ok (validate_difficulties f config) _ e1 in
      let (_, _, e3) = >>=-eq-ok (validate_ports config) _ e2 in
      let (_, payout, e4) = >>=-eq-ok (validate_payout c config) _ e3 in
      let (_, texts, _) = >>=-eq-ok (validate_texts config) _ e4 in
      let (script, paid) = validate_payout-eq-ok payout in
      record {
        sizes = unfold validate_sizes in ground (arith, sizes);
        script = script;
        payout = paid;
        texts = unfold validate_texts in ground (arith, texts);
      }

  -- The script of a coinbase with no flags fits with its extranonces.
  script_sig_total :
      (height : ℕ)
      → IsAdmitted
      → height < 2 ^ 63
      → (script_sig : Bytes) × (coinbase_script_sig c config height none ≡ ok script_sig)
        × (length script_sig + config.extranonce1_size + config.extranonce2_size ≤ 100)
  unfolding coinbase_script_sig
  script_sig_total height admitted h =
      let (script, encoded, short, _) = read_height-encode_coinbase_height height [] h in
      let (tag, message) = admitted.texts in
      let (en1, en2) = admitted.sizes in
      let (pushed, made, size) =
        push_short (coinbase_tag config.pool_tag config.coinbase_message) script
          (coinbase_tag_short config.pool_tag config.coinbase_message tag message) in
      (pushed, rw encoded made, omega (arith, short, size, en1, en2))

  -- With settings that the check of the configuration accepts, and neither flags nor a witness
  -- commitment, a coinbase is built for every value and every height up to the largest signed
  -- 64-bit number: its script with the extranonces is never too long.
  pub build_coinbase_parts_total :
      (coinbase_value height : ℕ) {u : Unit {0}}
      → validate c f config ≡ ok u
      → height < 2 ^ 63
      → (parts : CoinbaseParts) × (build_coinbase_parts c config coinbase_value height none none
          ≡ ok parts)
  unfolding build_coinbase_parts decode_commitment
  build_coinbase_parts_total coinbase_value height valid h =
      let admitted = validate-IsAdmitted valid in
      let (script_sig, made, fits) = script_sig_total height admitted h in
      (
        assemble_coinbase c config coinbase_value height admitted.script script_sig none,
        rw
            (
              admitted.payout,
              made,
              le→leb (length script_sig + config.extranonce1_size + config.extranonce2_size) 100
                  fits,
            )
            refl,
      )
