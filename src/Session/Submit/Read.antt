-- ===== src/Session/Submit/Read.antt =====
-- What `handle_submit` of src/stratum.rs reads of its parameters.
use mathlib.Core.Option
use stratum_bee.Base.{
  leb, ◌==◌, length, get_or, Text, ok, ok_or, ensure, >>=-eq-ok, ok-injective, ok_or-eq-ok, ℕ, ◌*◌,
  ◌≡◌, refl, subst, ◌&&◌, Option, none, some, List,
}
use stratum_bee.Encoding.HexText.{trim_0x}
use stratum_bee.Session.JobId.{normalize_session_job_id}
use stratum_bee.Session.Submit.Request.{
  SubmitRequest, even_digits, pad_below, param_text, read_submit,
}

module _ (extranonce2_size : ℕ) where
  -- What the request has of the parameters.
  pub record IsRead (params : List (Option Text)) (request : SubmitRequest) : Type 0 where
    pub named : normalize_session_job_id (param_text params 1) ≡ some request.job_id
    pub extranonce2_eq :
        request.extranonce2
        ≡ pad_below (extranonce2_size * 2) (even_digits (trim_0x (param_text params 2)))
    pub ntime_eq : request.ntime ≡ pad_below 8 (even_digits (trim_0x (param_text params 3)))
    pub nonce_eq : request.nonce ≡ pad_below 8 (even_digits (trim_0x (param_text params 4)))
    pub version_eq : request.version ≡ Option.map trim_0x (get_or params 5 none)

  pub read_submit-IsRead :
      (params : List (Option Text)) (request : SubmitRequest)
      → read_submit extranonce2_size params ≡ ok request
      → IsRead params request
  unfolding read_submit
  read_submit-IsRead params request e =
      let (_, _, e1) = >>=-eq-ok (ensure (leb 5 (length params)) "Invalid params") _ e in
      let (job_id, named, e2) =
        >>=-eq-ok (ok_or (normalize_session_job_id (param_text params 1)) "Invalid job_id") _ e1 in
      let extra = trim_0x (param_text params 2) in
      let expected = extranonce2_size * 2 in
      let (_, _, e3) =
        >>=-eq-ok (ensure (leb (length extra) 256) "Invalid extranonce2 length") _ e2 in
      let (_, _, e4) =
        >>=-eq-ok
          (ensure (length (pad_below expected (even_digits extra)) == expected)
            "Invalid extranonce2 length")
          _ e3 in
      let ntime = pad_below 8 (even_digits (trim_0x (param_text params 3))) in
      let nonce = pad_below 8 (even_digits (trim_0x (param_text params 4))) in
      let (_, _, e5) =
        >>=-eq-ok (ensure ((length ntime == 8) && (length nonce == 8)) "Invalid ntime/nonce length")
          _ e4 in
      subst (IsRead params) (ok-injective e5) (record {
        named = ok_or-eq-ok (normalize_session_job_id (param_text params 1)) _ named;
        extranonce2_eq = refl;
        ntime_eq = refl;
        nonce_eq = refl;
        version_eq = refl;
      })
