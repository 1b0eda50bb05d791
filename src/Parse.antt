-- ===== src/Parse.antt =====
-- nf-chain/src/main.c, `GET_CB_FIELD` and the parsers of one line of an ACL rule file. Every error
-- is the one `-EINVAL`, here `none`.
pub mod Sane
pub mod Loads
pub mod Print
pub mod Printed
pub mod Printed6
pub mod Samples
mod Tests
use Prim.Native.Nat.{bit_and}
use queue_dpdk.Prelude.{
  ◌-◌, ℕ, ◌+◌, ◌*◌, ◌/◌, ◌%◌, ◌^◌, Bool, true, false, not, ◌||◌, ◌&&◌, Option, none, some, List, [],
  ◌∷◌, ltb, ◌==◌, if◌then◌else◌, u32,
}
use queue_dpdk.Rules.{Line, Rule, lead, after_lead}
use queue_dpdk.Fields.{mask_range}

infixl 5 ◌>>=◌ ◌>>◌
abbrev pub ◌>>=◌ {ℓ κ} : {A : Type ℓ} {B : Type κ} → Option A → (A → Option B) → Option B
none >>= f = none
some a >>= f = f a

abbrev pub ◌>>◌ {ℓ κ} : {A : Type ℓ} {B : Type κ} → Option A → Option B → Option B
m >> n = m >>= (λ _. n)

-- `return -EINVAL` unless the test holds.
abbrev pub require : Bool → Option (Unit {0})
require b = if b then some tt else none

-- `struct rte_acl_field`
pub record Field : Type 0 where
  pub value : ℕ
  pub mask_range : ℕ

-- The fields of `acl4_rule`, and those of `acl6_rule`, whose addresses have four fields each.
pub record Ipv4Fields : Type 0 where
  pub proto : Field
  pub src : Field
  pub dst : Field
  pub srcp : Field
  pub dstp : Field

pub record Ipv6Fields : Type 0 where
  pub proto : Field
  pub src : List Field
  pub dst : List Field
  pub srcp : Field
  pub dstp : Field

-- The tokens of a line, in the order of `CB_FLD_SRC_ADDR` and its successors.
pub record Tokens : Type 0 where
  pub src_addr : Line
  pub dst_addr : Line
  pub src_port_low : Line
  pub src_port_dlm : Line
  pub src_port_high : Line
  pub dst_port_low : Line
  pub dst_port_dlm : Line
  pub dst_port_high : Line
  pub proto : Line
  pub userdata : Line

abbrev tokens : Line → Line → Line → Line → Line → Line → Line → Line → Line → Line → Tokens
tokens s d sl sd sh dl dd dh p u = record {
  src_addr = s;
  dst_addr = d;
  src_port_low = sl;
  src_port_dlm = sd;
  src_port_high = sh;
  dst_port_low = dl;
  dst_port_dlm = dd;
  dst_port_high = dh;
  proto = p;
  userdata = u;
}

abbrev pub slash : ℕ
slash = 47

abbrev pub colon : ℕ
colon = 58

abbrev pub dot : ℕ
dot = 46

-- `strncmp(token, cb_port_delim, sizeof(cb_port_delim)) == 0`: the token is a colon.
pub is_port_delim : Line → Bool
is_port_delim [] = false
is_port_delim (c ∷ []) = c == colon
is_port_delim (c ∷ d ∷ cs) = c == colon && d == 0

-- `RTE_IPV4`
abbrev pub rte_ipv4 : ℕ → ℕ → ℕ → ℕ → ℕ
rte_ipv4 a b c d = a * 2 ^ 24 + b * 2 ^ 16 + c * 2 ^ 8 + d

-- The loop over `strtok_r`: as many tokens as the line must have. The `userdata` of a line
-- without one is not read.
pub split_line : List Line → Bool → Option Tokens
split_line (s ∷ d ∷ sl ∷ sd ∷ sh ∷ dl ∷ dd ∷ dh ∷ p ∷ rest) has_userdata = elim rest [
  | [] ↦ if has_userdata then none else some (tokens s d sl sd sh dl dd dh p [])
  | u ∷ _ ↦ some (tokens s d sl sd sh dl dd dh p u)
]
split_line _ has_userdata = none

-- Neither range of ports is empty.
abbrev pub are_ranges : Field → Field → Bool
are_ranges srcp dstp = not (ltb srcp.mask_range srcp.value || ltb dstp.mask_range dstp.value)

-- `strtoul` gives a value and the rest of the text, or sets `errno`. `strtok_r` gives the tokens of
-- a line one by one; here they come as a list.
module _ (strtoul : Line → ℕ → Option (ℕ × Line)) (strtok : Line → List Line) where
  -- The number that `in` begins with, and what follows its delimiter.
  pub get_cb_field : Line → ℕ → ℕ → ℕ → Option (ℕ × Line)
  get_cb_field inp base lim dlm = do
    (val, end) ← strtoul inp base
    require (not (not (lead end == dlm) || ltb lim val))
    some (val, after_lead end)

  -- The four words of an address, and what follows it.
  pub parse_ipv6_addr : Line → ℕ → Option ((ℕ × ℕ × ℕ × ℕ) × Line)
  parse_ipv6_addr inp dlm = do
    (a0, in1) ← get_cb_field inp 16 65535 colon
    (a1, in2) ← get_cb_field in1 16 65535 colon
    (a2, in3) ← get_cb_field in2 16 65535 colon
    (a3, in4) ← get_cb_field in3 16 65535 colon
    (a4, in5) ← get_cb_field in4 16 65535 colon
    (a5, in6) ← get_cb_field in5 16 65535 colon
    (a6, in7) ← get_cb_field in6 16 65535 colon
    (a7, end) ← get_cb_field in7 16 65535 dlm
    some (
      (
        u32 (a0 * 2 ^ 16 + a1),
        u32 (a2 * 2 ^ 16 + a3),
        u32 (a4 * 2 ^ 16 + a5),
        u32 (a6 * 2 ^ 16 + a7),
      ),
      end,
    )

  pub parse_ipv6_net : Line → Option (List Field)
  parse_ipv6_net inp = do
    ((v0, v1, v2, v3), mp) ← parse_ipv6_addr inp slash
    (m, end) ← get_cb_field mp 0 128 0
    some (
        record { value = v0; mask_range = mask_range m 0 }
        ∷ record { value = v1; mask_range = mask_range m 1 }
        ∷ record { value = v2; mask_range = mask_range m 2 }
        ∷ record { value = v3; mask_range = mask_range m 3 }
        ∷ [])

  pub parse_ipv4_net : Line → Option Field
  parse_ipv4_net inp = do
    (a, in1) ← get_cb_field inp 0 255 dot
    (b, in2) ← get_cb_field in1 0 255 dot
    (c, in3) ← get_cb_field in2 0 255 dot
    (d, in4) ← get_cb_field in3 0 255 slash
    (m, end) ← get_cb_field in4 0 32 0
    some (record { value = rte_ipv4 a b c d; mask_range = m })

  -- A range of ports: the low one, the high one, and then the delimiter between them.
  pub parse_ports : Line → Line → Line → Option Field
  parse_ports low dlm high = do
    (v, end) ← get_cb_field low 0 65535 0
    (m, end') ← get_cb_field high 0 65535 0
    require (is_port_delim dlm)
    some (record { value = v; mask_range = m })

  -- Both parts of the protocol come from the one token: `GET_CB_FIELD` moves it on.
  pub parse_proto : Line → Option Field
  parse_proto inp = do
    (v, in1) ← get_cb_field inp 0 255 slash
    (m, end) ← get_cb_field in1 0 255 0
    some (record { value = v; mask_range = m })

  pub parse_userdata : Line → Bool → Option ℕ
  parse_userdata inp has_userdata =
      if has_userdata then get_cb_field inp 0 (2 ^ 32 - 1) 0 >>= (λ r. some r.0) else some 0

  -- The record is zeroed memory before; `add_rules` sets the priority and the category mask.
  pub parse_cb_ipv4vlan_rule : Line → Bool → Option (Rule Ipv4Fields)
  parse_cb_ipv4vlan_rule str has_userdata = do
    t ← split_line (strtok str) has_userdata
    src ← parse_ipv4_net t.src_addr
    dst ← parse_ipv4_net t.dst_addr
    srcp ← parse_ports t.src_port_low t.src_port_dlm t.src_port_high
    dstp ← parse_ports t.dst_port_low t.dst_port_dlm t.dst_port_high
    require (are_ranges srcp dstp)
    proto ← parse_proto t.proto
    userdata ← parse_userdata t.userdata has_userdata
    some (record {
      fields = record { proto = proto; src = src; dst = dst; srcp = srcp; dstp = dstp };
      userdata = userdata;
      priority = 0;
      category_mask = 0;
    })

  pub parse_cb_ipv6_rule : Line → Bool → Option (Rule Ipv6Fields)
  parse_cb_ipv6_rule str has_userdata = do
    t ← split_line (strtok str) has_userdata
    src ← parse_ipv6_net t.src_addr
    dst ← parse_ipv6_net t.dst_addr
    srcp ← parse_ports t.src_port_low t.src_port_dlm t.src_port_high
    dstp ← parse_ports t.dst_port_low t.dst_port_dlm t.dst_port_high
    require (are_ranges srcp dstp)
    proto ← parse_proto t.proto
    userdata ← parse_userdata t.userdata has_userdata
    some (record {
      fields = record { proto = proto; src = src; dst = dst; srcp = srcp; dstp = dstp };
      userdata = userdata;
      priority = 0;
      category_mask = 0;
    })
