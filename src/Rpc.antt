-- ===== src/Rpc.antt =====
-- The client of src/rpc.rs, from the node's answer on. That a request is not sent, or that its answer is
-- no such record, is an error of the argument; the requests are texts of a third-party crate.
use stratum_bee.Base.{Text, Result, ok, err, bail, ok_or, ◌>>=◌, ℤ, ◌≡◌, ◌↔◌, Option, none, some}

pub record RpcError : Type 0 where
  pub code : ℤ
  pub message : Text

pub record RpcResponse (A : Type 0) : Type 0 where
  pub result : Option A
  pub error : Option RpcError

-- The error of an answer is raised.
unfoldable pub raise : Option RpcError → Result (Unit {0})
raise none = ok tt
raise (some error) = bail "RPC error"

unfoldable pub call_optional : {A : Type 0} → Result (RpcResponse A) → Result (Option A)
call_optional answered = do body ← answered; done ← raise body.error; ok body.result

unfoldable pub call_with_client : {A : Type 0} → Result (RpcResponse A) → Result A
call_with_client answered = do
  body ← answered
  done ← raise body.error
  ok_or body.result "RPC returned empty result"

-- With or without an error in the answer, the optional call has the result that the call has.
answered-result :
    {A : Type 0} (result : Option A) (error : Option RpcError) (value : A)
    → ((raise error >>= (λ done. ok_or result "RPC returned empty result")) ≡ ok value)
      ↔ ((raise error >>= (λ done. ok result)) ≡ ok (some value))
unfolding raise
answered-result (some result) none value = (λ e. cc, λ e. cc)
answered-result none none value = (λ e. cc, λ e. cc)
answered-result result (some error) value = (λ e. cc, λ e. cc)

-- A call gives a value exactly if the optional call gives that value, and not none.
pub call_with_client-call_optional :
    {A : Type 0} (answered : Result (RpcResponse A)) (value : A)
    → (call_with_client answered ≡ ok value) ↔ (call_optional answered ≡ ok (some value))
unfolding call_with_client call_optional
call_with_client-call_optional (ok body) value = answered-result body.result body.error value
call_with_client-call_optional (err message) value = (λ e. cc, λ e. cc)
