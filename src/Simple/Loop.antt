-- ===== src/Simple/Loop.antt =====
-- The loops of `parse_request` and `parse_response`.
use small_rpc.Prelude.{
  ℕ, zero, suc, ◌+◌, ◌≤◌, ◌≡◌, ◌⊎◌, inl, inr, refl, ◌∙◌, arith, Run, returns, fault, out_of_fuel,
  ◌>>=◌,
}
use small_rpc.Buffer.{Buffer}
use small_rpc.Protocol.{success, error, no_enough_data}
use small_rpc.Simple.{
  SimpleContext, Round, go_on, stop, request_round, response_round, rounds, parse_request,
  parse_response, Parsed,
}
use small_rpc.Simple.Rounds.{Advances, request_round-Advances, response_round-Advances}

-- A run of the loop that ends: it faulted, or it succeeded at the last stage, met an error, or
-- lacks data. In that case a round on what it left lacks data too, and leaves all as it is.
abbrev pub Ends : (SimpleContext → Buffer → Run Round) → ℕ → Run Parsed → Type 0
Ends round last fault = Unit
Ends round last out_of_fuel = ⊥
Ends round last (returns p) =
    ((p.status ≡ success) × (last ≤ p.context.stage))
    ⊎ (p.status ≡ error)
    ⊎ ((p.status ≡ no_enough_data)
        × (round p.context p.rest ≡ returns (stop no_enough_data p.context p.rest)))

module _ (round : SimpleContext → Buffer → Run Round) (last : ℕ)
    (advances : (c : SimpleContext) (b : Buffer) → Advances last c b (round c b))
    (done : (c : SimpleContext) (b : Buffer)
      → last ≤ c.stage
      → round c b ≡ returns (stop success c b)) where
  Ends-after :
      (fuel : ℕ) (c : SimpleContext) (b : Buffer) (r : Run Round)
      → round c b ≡ r
      → Advances last c b r
      → ((c' : SimpleContext) (b' : Buffer)
          → c'.stage ≡ c.stage + 1
          → Ends round last (rounds round fuel c' b'))
      → Ends round last (
          r >>= elim [
            | go_on c' b' ↦ rounds round fuel c' b'
            | stop s c' b' ↦ returns (record { status = s; context = c'; rest = b' })
          ])
  Ends-after fuel c b (returns (go_on c' b')) e a later = later c' b' a
  Ends-after fuel c b (returns (stop no_enough_data c' b')) e (c_kept, b_kept) later =
      inr (inr (refl, rw (c_kept, b_kept) (e ∙ rw (c_kept, b_kept))))
  Ends-after fuel c b (returns (stop success c' b')) e (c_kept, b_kept, at_end) later =
      inl (refl, rw c_kept at_end)
  Ends-after fuel c b (returns (stop error c' b')) e a later = inr (inl refl)
  Ends-after fuel c b (returns (stop _ c' b')) e a later = absurd a
  Ends-after fuel c b fault e a later = tt
  Ends-after fuel c b out_of_fuel e a later = a

  rounds-Ends :
      (fuel : ℕ) (c : SimpleContext) (b : Buffer)
      → last ≤ fuel + c.stage
      → Ends round last (rounds round (suc fuel) c b)
  unfolding rounds
  rounds-Ends zero c b h = rw (done c b (omega arith)) (inl (refl, omega arith))
  rounds-Ends (suc fuel) c b h =
      Ends-after (suc fuel) c b (round c b) refl (advances c b)
        λ c' b' raised. rounds-Ends fuel c' b' (omega arith)

request_done :
    (c : SimpleContext) (b : Buffer) → 4 ≤ c.stage → request_round c b ≡ returns (stop success c b)
unfolding request_round
request_done c b h = ground arith

response_done :
    (c : SimpleContext) (b : Buffer) → 3 ≤ c.stage → response_round c b ≡ returns (stop success c b)
unfolding response_round
response_done c b h = ground arith

-- From any context and buffer the loop of `parse_request` ends within its fuel: it faults, or succeeds
-- with all four stages done, or ends in an error, or lacks data. In the last case a further round on
-- what it left lacks data again and changes nothing.
pub parse_request-Ends : (c : SimpleContext) (b : Buffer) → Ends request_round 4 (parse_request c b)
unfolding parse_request
parse_request-Ends c b =
    rounds-Ends request_round 4 request_round-Advances request_done 4 c b (omega arith)

-- The loop of `parse_response` ends within its fuel, with three stages, in the same four ways.
pub parse_response-Ends :
    (c : SimpleContext) (b : Buffer) → Ends response_round 3 (parse_response c b)
unfolding parse_response
parse_response-Ends c b =
    rounds-Ends response_round 3 response_round-Advances response_done 3 c b (omega arith)
