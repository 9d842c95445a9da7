-- ===== src/Http/Stages.antt =====
-- The stages of the HTTP parsers, one at a time.
use small_rpc.Prelude.{ℕ, suc, ◌≡◌, refl, ap, ◌==◌, if◌then◌else◌, Run}
use small_rpc.Buffer.{Buffer}
use small_rpc.Http.{parse_body, run_stage, next_stage, stages}
use small_rpc.Http.Header.{parse_headers}
use small_rpc.Http.State.{HttpContext, HttpParsed, answer}
use small_rpc.Protocol.{no_enough_data, part_success, success}

module _ (first_line : HttpContext → Buffer → Run HttpParsed) (c : HttpContext) (b : Buffer) where
  abbrev at_stage : ℕ → Run HttpParsed
  at_stage n =
      if n == 0
      then first_line c b
      else if n == 1
      then parse_headers c b
      else if n == 2
      then parse_body c b
      else answer success c b

  pub run_stage-first : c.stage ≡ 0 → run_stage first_line c b ≡ first_line c b
  unfolding run_stage
  run_stage-first e = ap at_stage e

  pub run_stage-headers : c.stage ≡ 1 → run_stage first_line c b ≡ parse_headers c b
  unfolding run_stage
  run_stage-headers e = ap at_stage e

  pub run_stage-body : c.stage ≡ 2 → run_stage first_line c b ≡ parse_body c b
  unfolding run_stage
  run_stage-body e = ap at_stage e

  pub run_stage-over : c.stage ≡ 3 → run_stage first_line c b ≡ answer success c b
  unfolding run_stage
  run_stage-over e = ap at_stage e

  module _ (fuel : ℕ) {c' : HttpContext} {b' : Buffer} where
    pub stages_part :
        run_stage first_line c b ≡ answer part_success c' b'
        → stages first_line (suc fuel) c b ≡ stages first_line fuel (next_stage c') b'
    unfolding stages
    stages_part e = rw e refl

    pub stages_wait :
        run_stage first_line c b ≡ answer no_enough_data c' b'
        → stages first_line (suc fuel) c b ≡ answer no_enough_data c' b'
    unfolding stages
    stages_wait e = rw e refl

    pub stages_over :
        run_stage first_line c b ≡ answer success c' b'
        → stages first_line (suc fuel) c b ≡ answer success c' b'
    unfolding stages
    stages_over e = rw e refl
