-- ===== src/Simple/Rounds.antt =====
-- What one round of `parse_request` or `parse_response` may do.
use small_rpc.Prelude.{
  ℕ, zero, suc, ◌+◌, ◌≤◌, ◌≡◌, ◌≢◌, ◌⊎◌, inl, inr, [], ◌∷◌, arith, Bytes, length, Run, returns,
  fault, out_of_fuel, leb, Bool-cases, drop, take, be_word,
}
use small_rpc.Buffer.{Buffer, peek_uint32, read_range, mem_chr, scan_chr, retrieve}
use small_rpc.Protocol.{success, error, no_enough_data}
use small_rpc.Simple.{
  SimpleContext, Round, go_on, stop, request_round, response_round, parse_magic, take_conn_type,
  parse_conn_type, split_path, take_path, parse_path, take_payload, parse_payload, parse_status,
  take_status, parse_type_and_status,
}

-- What a round may do: fault, raise the stage by one, stop for want of data with all as it was, stop
-- with success at the last stage, or stop with an error.
abbrev pub Advances : ℕ → SimpleContext → Buffer → Run Round → Type 0
Advances last c b (returns (go_on c' b')) = c'.stage ≡ c.stage + 1
Advances last c b (returns (stop no_enough_data c' b')) = (c' ≡ c) × (b' ≡ b)
Advances last c b (returns (stop success c' b')) = (c' ≡ c) × (b' ≡ b) × (last ≤ c.stage)
Advances last c b (returns (stop error c' b')) = Unit
Advances last c b (returns (stop _ c' b')) = ⊥
Advances last c b fault = Unit
Advances last c b out_of_fuel = ⊥

scan_chr_total : (x n : ℕ) (mem : Bytes) → scan_chr x n mem ≢ out_of_fuel
unfolding scan_chr
scan_chr_total x zero mem = ground arith
scan_chr_total x (suc n) [] = ground arith
scan_chr_total x (suc n) (y ∷ mem) = ground (arith, scan_chr_total x n mem)

parse_magic-Advances :
    (last : ℕ) (c : SimpleContext) (b : Buffer) → c.stage ≡ 0 → Advances last c b (parse_magic c b)
unfolding parse_magic peek_uint32 read_range
parse_magic-Advances last c b e = ground arith

parse_conn_type-Advances :
    (last : ℕ) (c : SimpleContext) (b : Buffer)
    → c.stage ≡ 1
    → Advances last c b (parse_conn_type c b)
unfolding parse_conn_type take_conn_type peek_uint32 read_range
parse_conn_type-Advances last c b e = ground arith

pub mem_chr_total : (mem : Bytes) (at x n : ℕ) → mem_chr mem at x n ≢ out_of_fuel
unfolding mem_chr
mem_chr_total mem at x n = scan_chr_total x n (drop at mem)

take_path-Advances :
    (last : ℕ) (c : SimpleContext) (b : Buffer) (n : ℕ)
    → c.stage ≡ 2
    → Advances last c b (take_path c b n)
unfolding take_path split_path read_range
take_path-Advances last c b n e =
    ground (arith, mem_chr_total (retrieve 4 b).storage (retrieve 4 b).rindex b'/' n)

peek_cases : (b : Buffer) → (peek_uint32 b ≡ fault) ⊎ ((n : ℕ) × (peek_uint32 b ≡ returns n))
unfolding peek_uint32 read_range
peek_cases b = elim (Bool-cases (leb (b.rindex + 4) (length b.storage))) [
  | inl inside ↦ inr (be_word (take 4 (drop b.rindex b.storage)), rw inside)
  | inr outside ↦ inl (rw outside)
]

parse_path-Advances :
    (last : ℕ) (c : SimpleContext) (b : Buffer) → c.stage ≡ 2 → Advances last c b (parse_path c b)
unfolding parse_path
parse_path-Advances last c b e = elim (peek_cases b) [
  | inl past ↦ ground (arith, past)
  | inr (n, word) ↦ ground (arith, word, take_path-Advances last c b n e)
]

parse_payload-Advances :
    (last : ℕ) (c : SimpleContext) (b : Buffer) (stage : ℕ)
    → stage ≡ c.stage + 1
    → Advances last c b (parse_payload stage c b)
unfolding parse_payload take_payload peek_uint32 read_range
parse_payload-Advances last c b stage e = ground arith

parse_type_and_status-Advances :
    (last : ℕ) (c : SimpleContext) (b : Buffer)
    → c.stage ≡ 1
    → Advances last c b (parse_type_and_status c b)
unfolding parse_type_and_status take_conn_type parse_status take_status peek_uint32 read_range
parse_type_and_status-Advances last c b e = ground arith

pub request_round-Advances : (c : SimpleContext) (b : Buffer) → Advances 4 c b (request_round c b)
unfolding request_round
request_round-Advances c b = ground (
  arith,
  parse_magic-Advances 4 c b,
  parse_conn_type-Advances 4 c b,
  parse_path-Advances 4 c b,
  parse_payload-Advances 4 c b 4,
)

pub response_round-Advances : (c : SimpleContext) (b : Buffer) → Advances 3 c b (response_round c b)
unfolding response_round
response_round-Advances c b = ground (
  arith,
  parse_magic-Advances 3 c b,
  parse_type_and_status-Advances 3 c b,
  parse_payload-Advances 3 c b 3,
)
