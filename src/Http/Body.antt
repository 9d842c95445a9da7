-- ===== src/Http/Body.antt =====
-- `_parse_body` with a body size below zero.
use small_rpc.Prelude.{
  ℕ, ◌^◌, ◌<◌, ◌≡◌, refl, arith, Bytes, length, int_of_small, negsuc, returns, fault,
}
use small_rpc.Buffer.{Buffer, view_at, view_str, read_range}
use small_rpc.Buffer.Contents.{Holds, Holds-bounds, readable-Holds}
use small_rpc.Http.{size_of_int, parse_body}
use small_rpc.Http.State.{HttpContext, HttpParsed}
use small_rpc.Protocol.{part_success}

-- A view whose length is a negative `int` cannot be read.
view_at_negative :
    {b : Buffer} {live : Bytes} (k : ℕ)
    → Holds b live
    → k < 2 ^ 31
    → view_str (view_at b.rindex (size_of_int (negsuc k))) b ≡ fault
unfolding view_str view_at read_range size_of_int
view_at_negative {b} k h small = ground (arith, Holds-bounds h)

-- When fewer than 2 ^ 31 bytes are there, a negative Content-Length, -k - 1, passes for a body that is
-- complete; taking the payload from the view that is made for it faults.
pub parse_body_negative :
    {b : Buffer} {live : Bytes} (c : HttpContext) (k : ℕ)
    → Holds b live
    → length live < 2 ^ 31
    → c.body_size ≡ negsuc k
    → k < 2 ^ 31
    → (p : HttpParsed) × (parse_body c b ≡ returns p)
      × (p.status ≡ part_success)
      × (view_str p.context.base.payload_view p.rest ≡ fault)
unfolding parse_body
parse_body_negative {b} {live} c k h short_queue negative small = (
  record {
    status = part_success;
    context = record c {
      base = record c.base { payload_view = view_at b.rindex (size_of_int (negsuc k)) };
    };
    rest = b;
  },
  rw (negative, readable-Holds h, int_of_small (length live) short_queue) refl,
  refl,
  view_at_negative k h small,
)
