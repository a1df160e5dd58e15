-- ===== src/Session/Submit/Request.antt =====
-- The parameters of `mining.submit` as `handle_submit` of src/stratum.rs reads them.
use mathlib.Core.Option
use stratum_bee.Base.{
  ltb, leb, ◌==◌, if◌then◌else◌, length, get_or, replicate, Text, Result, ok, ok_or, ensure, ◌>>=◌,
  ◌>>◌, ℕ, suc, ◌-◌, ◌*◌, ◌%◌, not, ◌&&◌, Option, none, List, [], ◌∷◌, ◌++◌,
}
use stratum_bee.Encoding.HexText.{trim_0x}
use stratum_bee.Session.JobId.{normalize_session_job_id}

pub record SubmitRequest : Type 0 where
  pub submitted_worker : Text
  pub job_id : Text
  pub extranonce2 : Text
  pub ntime : Text
  pub nonce : Text
  pub version : Option Text

-- The characters of a text: the bytes that continue none.
unfoldable pub char_count : Text → ℕ
char_count [] = 0
char_count (b ∷ text) = if leb 128 b && ltb b 192 then char_count text else suc (char_count text)

-- `format!("{text:0>width$}")`
unfoldable pub pad_zeros : ℕ → Text → Text
pad_zeros width text = replicate (width - char_count text) b'0' ++ text

unfoldable pub even_digits : Text → Text
even_digits text = if not (length text % 2 == 0) then b'0' ∷ text else text

unfoldable pub pad_below : ℕ → Text → Text
pad_below width text = if ltb (length text) width then pad_zeros width text else text

-- `params[idx].as_str().unwrap_or("")`
unfoldable pub param_text : List (Option Text) → ℕ → Text
param_text params idx = Option.get_or (get_or params idx none) []

-- The request that the parameters make; an error is answered with code 20.
unfoldable pub read_submit : ℕ → List (Option Text) → Result SubmitRequest
read_submit extranonce2_size params = do
  ensure (leb 5 (length params)) "Invalid params"
  job_id ← ok_or (normalize_session_job_id (param_text params 1)) "Invalid job_id"
  let extra = trim_0x (param_text params 2)
  let expected_extra2 = extranonce2_size * 2
  ensure (leb (length extra) 256) "Invalid extranonce2 length"
  let extranonce2 = pad_below expected_extra2 (even_digits extra)
  ensure (length extranonce2 == expected_extra2) "Invalid extranonce2 length"
  let ntime = pad_below 8 (even_digits (trim_0x (param_text params 3)))
  let nonce = pad_below 8 (even_digits (trim_0x (param_text params 4)))
  ensure ((length ntime == 8) && (length nonce == 8)) "Invalid ntime/nonce length"
  ok (record {
    submitted_worker = param_text params 0;
    job_id = job_id;
    extranonce2 = extranonce2;
    ntime = ntime;
    nonce = nonce;
    version = Option.map trim_0x (get_or params 5 none);
  })
