-- ===== src/Template/Coinbase/Split.antt =====
-- Theorems on the two halves of the coinbase in src/template.rs.
use stratum_bee.Base.{
  leb, length, take, drop, length-append, length-replicate, take-append_left, drop-append_left,
  Bytes, zeros, Text, ok, ensure, >>=-eq-ok, ok-injective, ℕ, ◌+◌, ◌≡◌, refl, ap, ◌∙◌, subst,
  Option, [], ◌++◌, append_assoc, arith,
}
use stratum_bee.Crates.{Crates}
use stratum_bee.Config.{Config}
use stratum_bee.Template.Coinbase.{
  CoinbaseParts, coinbase_head, coinbase_tail, payout_script, coinbase_script_sig,
  decode_commitment, assemble_coinbase, build_coinbase_parts,
}
use stratum_bee.Encoding.Varint.{encode_varint, varint_len}
use stratum_bee.Encoding.Varint.RoundTrip.{length-encode_varint}

length-coinbase_head : length coinbase_head ≡ 41
unfolding coinbase_head
length-coinbase_head = refl

regroup_front :
    (head size script en1 en2 tail : Bytes)
    → head ++ (size ++ ((script ++ (en1 ++ en2)) ++ tail))
      ≡ (head ++ (size ++ script)) ++ (en1 ++ (en2 ++ tail))
regroup_front head size script en1 en2 tail = simp append_assoc

regroup_back :
    (head size script en1 en2 tail : Bytes)
    → head ++ (size ++ ((script ++ (en1 ++ en2)) ++ tail))
      ≡ (head ++ (size ++ (script ++ (en1 ++ en2)))) ++ tail
regroup_back head size script en1 en2 tail = simp append_assoc

length-front :
    (head size script : Bytes)
    → length (head ++ (size ++ script)) ≡ length head + length size + length script
length-front head size script =
    omega (arith, length-append head (size ++ script), length-append size script)

module _ {F : Type 0} (c : Crates) (config : Config F) where
  -- The bytes that the two halves stand for.
  pub record Splits (parts : CoinbaseParts) : Type 0 where
    pub before : Bytes
    pub after : Bytes
    pub first_half : parts.coinbase1 ≡ c.hex_encode before
    pub second_half : parts.coinbase2 ≡ c.hex_encode after
    pub whole :
        parts.coinbase_tx
        ≡ before ++ (zeros config.extranonce1_size ++ (zeros config.extranonce2_size ++ after))

  assembled :
      (value height : ℕ) (script_pubkey script_sig : Bytes) (witness : Option Bytes)
      → Splits (assemble_coinbase c config value height script_pubkey script_sig witness)
  unfolding assemble_coinbase
  assembled value height script_pubkey script_sig witness =
      let en1 = zeros config.extranonce1_size in
      let en2 = zeros config.extranonce2_size in
      let full = script_sig ++ (en1 ++ en2) in
      let size = encode_varint (length full) [] in
      let tail = coinbase_tail value height script_pubkey witness in
      let start = 4 + varint_len 1 + (32 + 4) + varint_len (length full) in
      let one : varint_len 1 ≡ 1 = unfold varint_len in refl in
      let head_size : length coinbase_head ≡ 41 = length-coinbase_head in
      let full_size : length full
          ≡ length script_sig + config.extranonce1_size + config.extranonce2_size =
        omega (
          arith,
          length-append script_sig (en1 ++ en2),
          length-append en1 en2,
          length-replicate {A = ℕ} config.extranonce1_size 0,
          length-replicate {A = ℕ} config.extranonce2_size 0,
        ) in
      let front_size : length (coinbase_head ++ (size ++ script_sig)) ≡ start + length script_sig =
        omega (
          arith,
          length-front coinbase_head size script_sig,
          length-encode_varint (length full),
          head_size,
          one,
        ) in
      let back_size : length (coinbase_head ++ (size ++ full))
          ≡ start + (length script_sig + config.extranonce1_size + config.extranonce2_size) =
        omega (
          arith,
          length-front coinbase_head size full,
          length-encode_varint (length full),
          head_size,
          one,
          full_size,
        ) in
      record {
        before = coinbase_head ++ (size ++ script_sig);
        after = tail;
        first_half = ap c.hex_encode (
            ap (take (start + length script_sig))
              (regroup_front coinbase_head size script_sig en1 en2 tail)
            ∙ take-append_left (start + length script_sig) (coinbase_head ++ (size ++ script_sig)) _
                front_size);
        second_half = ap c.hex_encode (
            ap
              (drop
                (start + (length script_sig + config.extranonce1_size + config.extranonce2_size)))
              (regroup_back coinbase_head size script_sig en1 en2 tail)
            ∙ drop-append_left _ (coinbase_head ++ (size ++ full)) tail back_size);
        whole = regroup_front coinbase_head size script_sig en1 en2 tail;
      }

  -- Every coinbase that is built is its two decoded halves around the two zero extranonces, so that
  -- other extranonces of those sizes fit between the halves.
  pub build_coinbase_parts-Splits :
      (value height : ℕ) (flags commitment : Option Text) (parts : CoinbaseParts)
      → build_coinbase_parts c config value height flags commitment ≡ ok parts
      → Splits parts
  unfolding build_coinbase_parts
  build_coinbase_parts-Splits value height flags commitment parts e =
      let (script_pubkey, _, e1) = >>=-eq-ok (payout_script c config) _ e in
      let (script_sig, _, e2) = >>=-eq-ok (coinbase_script_sig c config height flags) _ e1 in
      let (_, _, e3) =
        >>=-eq-ok
          (ensure (leb (length script_sig + config.extranonce1_size + config.extranonce2_size) 100)
            "coinbase scriptSig too long")
          _ e2 in
      let (witness, _, e4) = >>=-eq-ok (decode_commitment c config commitment) _ e3 in
      subst Splits (ok-injective e4) (assembled value height script_pubkey script_sig witness)
