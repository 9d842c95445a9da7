-- ===== src/PbServer.antt =====
-- net/pb_server.h and net/pb_server.cpp: the protocols and services of a server, and the life of a
-- connection. protobuf is a parameter: a method parses a payload and answers with one.
pub mod Handlers
pub mod Choice
pub mod Closing
pub mod Timers
pub mod Serve
pub mod Late
pub mod ServeHttp
pub mod Keeps
pub mod Life
pub mod Reuse
pub mod Truncated
use small_rpc.Prelude.{
  ℕ, zero, suc, ◌+◌, Bool, true, false, ◌==◌, ltb, if◌then◌else◌, List, [], ◌∷◌, ◌++◌, map, length,
  Bytes, Option, none, some, Run, returns, fault, ◌>>=◌, ℤ, pos, negsuc,
}
use small_rpc.Buffer.{Buffer}
use small_rpc.Protocol.{
  ParseProtocolStatus, success, error, no_enough_data, try_another_protocol, part_success,
}
use small_rpc.Protocols.{AnyContext, Outcome, Protocol}

unfoldable pub eqb_bytes : Bytes → Bytes → Bool
eqb_bytes [] [] = true
eqb_bytes [] (y ∷ ys) = false
eqb_bytes (x ∷ xs) [] = false
eqb_bytes (x ∷ xs) (y ∷ ys) = let rest = eqb_bytes xs ys in if x == y then rest else false

-- A method of a service: `ParseFromString` of its request, `none` where that fails, followed by its
-- run, which answers with the serialized response before it calls `done`.
abbrev pub Method : Type 0
Method = Bytes → Option Bytes

-- A service's descriptor: its name, and its methods in order.
pub record Service : Type 0 where
  pub name : Bytes
  pub methods : List (Bytes × Method)

-- The server's fields. `services` maps a name to what was registered of its methods.
pub record PbServer : Type 0 where
  pub read_timeout_ms : ℤ
  pub write_timeout_ms : ℤ
  pub protocols : List Protocol
  pub services : List (Bytes × List (Bytes × Method))

unfoldable pub new_server : PbServer
new_server = record {
  read_timeout_ms = negsuc 0;
  write_timeout_ms = negsuc 0;
  protocols = [];
  services = [];
}

unfoldable pub set_read_timeout_ms : ℤ → PbServer → PbServer
set_read_timeout_ms ms s = record s { read_timeout_ms = ms }

unfoldable pub set_write_timeout_ms : ℤ → PbServer → PbServer
set_write_timeout_ms ms s = record s { write_timeout_ms = ms }

-- The entry of a `std::map`.
unfoldable pub find {ℓ} : {A : Type ℓ} → Bytes → List (Bytes × A) → Option A
find name [] = none
find name ((key, a) ∷ entries) =
    let rest = find name entries in if eqb_bytes key name then some a else rest

unfoldable pub has_protocol : Bytes → List Protocol → Bool
has_protocol name [] = false
has_protocol name (p ∷ ps) =
    let rest = has_protocol name ps in if eqb_bytes p.name name then true else rest

-- `add_protocol`
unfoldable pub add_protocol : Protocol → PbServer → Bool × PbServer
add_protocol p s =
    if has_protocol p.name s.protocols
    then (false, s)
    else (true, record s { protocols = s.protocols ++ p ∷ [] })

-- The loop of `add_service`: it stops at the second method of a name.
unfoldable pub add_methods :
    List (Bytes × Method) → List (Bytes × Method) → Bool × List (Bytes × Method)
add_methods [] known = (true, known)
add_methods ((name, m) ∷ ms) known =
    let later = add_methods ms (known ++ (name, m) ∷ []) in
    elim (find name known) [ none ↦ later | some old ↦ (false, known) ]

-- `add_service`: the service stays registered when one of its methods is refused.
unfoldable pub add_service : Service → PbServer → Bool × PbServer
add_service sv s =
    let (accepted, methods) = add_methods sv.methods [] in
    elim (find sv.name s.services) [
      | none ↦ (accepted, record s { services = s.services ++ (sv.name, methods) ∷ [] })
      | some old ↦ (false, s)
    ]

-- `~PbServer`: the names of the protocols and of the services that it deletes.
unfoldable pub deleted : PbServer → List Bytes × List Bytes
deleted s = (map (λ (p : Protocol). p.name) s.protocols, map (λ entry. entry.0) s.services)

-- `_find_service_method`
unfoldable pub find_service_method : Bytes → Bytes → PbServer → Option Method
find_service_method service method s = elim (find service s.services) [
  | none ↦ none
  | some methods ↦ find method methods
]

-- What the loop of `data_read_callback` leaves: the last status, the connection's `proto_idx`, its
-- context slot and its buffer. `none` is a status that was never assigned.
pub record Tried : Type 0 where
  pub status : Option ParseProtocolStatus
  pub index : ℕ
  pub slot : Option AnyContext
  pub rest : Buffer

abbrev pub tried : Option ParseProtocolStatus → ℕ → Outcome → Tried
tried status index o = record { status = status; index = index; slot = o.slot; rest = o.rest }

unfoldable pub is_try_another : ParseProtocolStatus → Bool
is_try_another success = false
is_try_another error = false
is_try_another no_enough_data = false
is_try_another try_another_protocol = true
is_try_another part_success = false

-- The loop over the protocols from `proto_idx` on; `index` is the first of them.
unfoldable pub try_protocols :
    List Protocol → ℕ → Option ParseProtocolStatus → Buffer → Option AnyContext → Run Tried
try_protocols [] index last b slot =
    returns (record { status = last; index = index; slot = slot; rest = b })
try_protocols (p ∷ ps) index last b slot = p.parse b slot >>= λ o. elim (is_try_another o.status) [
  | true ↦ try_protocols ps (index + 1) (some o.status) o.rest o.slot
  | false ↦ returns (tried (some o.status) index o)
]
