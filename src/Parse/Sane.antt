-- ===== src/Parse/Sane.antt =====
-- nf-chain/src/main.c: what a rule that the line parsers accept looks like.
use queue_dpdk.Prelude.{
  IfSome, ℕ, ◌+◌, ◌-◌, ◌^◌, ◌≤◌, ◌≡◌, refl, true, false, Bool, Option, none, some, List, [], ◌∷◌,
  arith, not, ◌||◌, ltb, ◌==◌,
}
use queue_dpdk.Rules.{Line, lead}
use queue_dpdk.Fields.Layout.{mask_range-whole}
use queue_dpdk.Parse.{
  ◌>>=◌, ◌>>◌, require, Field, Ipv4Fields, Ipv6Fields, Tokens, slash, colon, dot, get_cb_field,
  parse_ipv6_addr, parse_ipv6_net, parse_ipv4_net, split_line, parse_ports, is_port_delim,
  parse_proto, parse_userdata, are_ranges, parse_cb_ipv4vlan_rule, parse_cb_ipv6_rule,
}

bind-IfSome {ℓ κ μ ν} :
    {A : Type ℓ} {B : Type κ} (P : A → Type μ) (Q : B → Type ν) (m : Option A) (f : A → Option B)
    → IfSome P m
    → ((a : A) → P a → IfSome Q (f a))
    → IfSome Q (m >>= f)
bind-IfSome P Q none f h k = tt
bind-IfSome P Q (some a) f h k = k a h

any-IfSome {ℓ} : {A : Type ℓ} (m : Option A) → IfSome (λ a. Unit {0}) m
any-IfSome none = tt
any-IfSome (some a) = tt

require-IfSome : (b : Bool) → IfSome (λ u. b ≡ true) (require b)
require-IfSome true = refl
require-IfSome false = tt

-- A pair of numbers as the fields of a rule hold it: a value and a mask below their bounds.
abbrev pub Bounded : ℕ → ℕ → Field → Type 0
Bounded v m f = (f.value ≤ v) × (f.mask_range ≤ m)

-- A range of ports that is not empty.
abbrev pub IsRange : Field → Type 0
IsRange f = (f.value ≤ f.mask_range) × (f.mask_range ≤ 65535)

-- The words of an IPv6 address under a mask of at most 128 bits.
abbrev pub IsNet6 : List Field → Type 0
IsNet6 (a ∷ b ∷ c ∷ d ∷ []) =
    Bounded (2 ^ 32 - 1) 32 a
    × Bounded (2 ^ 32 - 1) 32 b
    × Bounded (2 ^ 32 - 1) 32 c
    × Bounded (2 ^ 32 - 1) 32 d
    × (a.mask_range + b.mask_range + c.mask_range + d.mask_range ≤ 128)
IsNet6 _ = ⊥

pub record IsSane4 (f : Ipv4Fields) : Type 0 where
  pub src : Bounded (2 ^ 32 - 1) 32 f.src
  pub dst : Bounded (2 ^ 32 - 1) 32 f.dst
  pub srcp : IsRange f.srcp
  pub dstp : IsRange f.dstp
  pub proto : Bounded 255 255 f.proto

pub record IsSane6 (f : Ipv6Fields) : Type 0 where
  pub src : IsNet6 f.src
  pub dst : IsNet6 f.dst
  pub srcp : IsRange f.srcp
  pub dstp : IsRange f.dstp
  pub proto : Bounded 255 255 f.proto

module _ (strtoul : Line → ℕ → Option (ℕ × Line)) (strtok : Line → List Line) where
  get_cb_field-bound :
      (inp : Line) (base lim dlm : ℕ)
      → IfSome (λ r. r.0 ≤ lim) (get_cb_field strtoul strtok inp base lim dlm)
  unfolding get_cb_field
  get_cb_field-bound inp base lim dlm =
      bind-IfSome (λ r. Unit {0}) (λ r. r.0 ≤ lim) (strtoul inp base) _
        (any-IfSome (strtoul inp base))
        (λ r _.
          bind-IfSome (λ u. not (not (lead r.1 == dlm) || ltb lim r.0) ≡ true) (λ q. q.0 ≤ lim)
            (require (not (not (lead r.1 == dlm) || ltb lim r.0))) _
            (require-IfSome (not (not (lead r.1 == dlm) || ltb lim r.0)))
            (λ u e. ground (arith, e)))

  -- One field after another.
  field_then {κ} :
      {B : Type 0} (Q : B → Type κ) (inp : Line) (base lim dlm : ℕ) (f : ℕ × Line → Option B)
      → ((v : ℕ) (end : Line) → v ≤ lim → IfSome Q (f (v, end)))
      → IfSome Q (get_cb_field strtoul strtok inp base lim dlm >>= f)
  field_then Q inp base lim dlm f k =
      bind-IfSome (λ r. r.0 ≤ lim) Q (get_cb_field strtoul strtok inp base lim dlm) f
        (get_cb_field-bound inp base lim dlm) (λ r h. k r.0 r.1 h)

  parse_ipv4_net-Bounded :
      (inp : Line) → IfSome (Bounded (2 ^ 32 - 1) 32) (parse_ipv4_net strtoul strtok inp)
  unfolding parse_ipv4_net
  parse_ipv4_net-Bounded inp = field_then (Bounded (2 ^ 32 - 1) 32) inp 0 255 dot _ (λ a i1 ha.
      field_then (Bounded (2 ^ 32 - 1) 32) i1 0 255 dot _ (λ b i2 hb.
        field_then (Bounded (2 ^ 32 - 1) 32) i2 0 255 dot _ (λ c i3 hc.
          field_then (Bounded (2 ^ 32 - 1) 32) i3 0 255 slash _ (λ d i4 hd.
            field_then (Bounded (2 ^ 32 - 1) 32) i4 0 32 0 _ (λ m i5 hm. (omega arith, hm))))))

  parse_ports-Bounded :
      (low dlm high : Line) → IfSome (Bounded 65535 65535) (parse_ports strtoul strtok low dlm high)
  unfolding parse_ports
  parse_ports-Bounded low dlm high = field_then (Bounded 65535 65535) low 0 65535 0 _ (λ v i1 hv.
      field_then (Bounded 65535 65535) high 0 65535 0 _ (λ m i2 hm.
        bind-IfSome (λ u. is_port_delim dlm ≡ true) (Bounded 65535 65535)
          (require (is_port_delim dlm)) _ (require-IfSome (is_port_delim dlm)) (λ u e. (hv, hm))))

  parse_proto-Bounded : (inp : Line) → IfSome (Bounded 255 255) (parse_proto strtoul strtok inp)
  unfolding parse_proto
  parse_proto-Bounded inp =
      field_then (Bounded 255 255) inp 0 255 slash _
        (λ v i1 hv. field_then (Bounded 255 255) i1 0 255 0 _ (λ m i2 hm. (hv, hm)))

  Words : (ℕ × ℕ × ℕ × ℕ) × Line → Type 0
  Words w =
      (w.0.0 ≤ 2 ^ 32 - 1) × (w.0.1 ≤ 2 ^ 32 - 1) × (w.0.2 ≤ 2 ^ 32 - 1) × (w.0.3 ≤ 2 ^ 32 - 1)

  parse_ipv6_addr-Words :
      (inp : Line) (dlm : ℕ) → IfSome Words (parse_ipv6_addr strtoul strtok inp dlm)
  unfolding parse_ipv6_addr Words
  parse_ipv6_addr-Words inp dlm = field_then Words inp 16 65535 colon _ (λ a0 i1 h0.
      field_then Words i1 16 65535 colon _ (λ a1 i2 h1.
        field_then Words i2 16 65535 colon _ (λ a2 i3 h2.
          field_then Words i3 16 65535 colon _ (λ a3 i4 h3.
            field_then Words i4 16 65535 colon _ (λ a4 i5 h4.
              field_then Words i5 16 65535 colon _ (λ a5 i6 h5.
                field_then Words i6 16 65535 colon _ (λ a6 i7 h6.
                  field_then Words i7 16 65535 dlm _
                    (λ a7 i8 h7. (omega arith, omega arith, omega arith, omega arith)))))))))

  parse_ipv6_net-IsNet6 : (inp : Line) → IfSome IsNet6 (parse_ipv6_net strtoul strtok inp)
  unfolding parse_ipv6_net Words
  parse_ipv6_net-IsNet6 inp =
      bind-IfSome Words IsNet6 (parse_ipv6_addr strtoul strtok inp slash) _
        (parse_ipv6_addr-Words inp slash)
        (λ w hw. field_then IsNet6 w.1 0 128 0 _ (λ m i1 hm.
          let whole = mask_range-whole m hm in
          (
            (hw.0, whole.1 0),
            (hw.1, whole.1 1),
            (hw.2, whole.1 2),
            (hw.3, whole.1 3),
            omega (arith, whole.0, hm),
          )))

  -- What the two parsers share: all but the addresses.
  ports_then {κ} :
      {B : Type 0} (Q : B → Type κ) (t : Tokens) (has_userdata : Bool)
      (g : Field → Field → Field → ℕ → Option B)
      → ((srcp dstp proto : Field) (n : ℕ)
          → IsRange srcp
          → IsRange dstp
          → Bounded 255 255 proto
          → IfSome Q (g srcp dstp proto n))
      → IfSome Q (
          parse_ports strtoul strtok t.src_port_low t.src_port_dlm t.src_port_high >>= (λ srcp.
            parse_ports strtoul strtok t.dst_port_low t.dst_port_dlm t.dst_port_high >>= (λ dstp.
              require (are_ranges srcp dstp)
              >> (parse_proto strtoul strtok t.proto >>= (λ proto.
                  parse_userdata strtoul strtok t.userdata has_userdata
                  >>= (λ n. g srcp dstp proto n))))))
  ports_then Q t has_userdata g k =
      bind-IfSome (Bounded 65535 65535) Q
        (parse_ports strtoul strtok t.src_port_low t.src_port_dlm t.src_port_high) _
        (parse_ports-Bounded t.src_port_low t.src_port_dlm t.src_port_high)
        (λ srcp hs.
          bind-IfSome (Bounded 65535 65535) Q
            (parse_ports strtoul strtok t.dst_port_low t.dst_port_dlm t.dst_port_high) _
            (parse_ports-Bounded t.dst_port_low t.dst_port_dlm t.dst_port_high)
            (λ dstp hd.
              bind-IfSome (λ u. are_ranges srcp dstp ≡ true) Q (require (are_ranges srcp dstp)) _
                (require-IfSome (are_ranges srcp dstp))
                (λ u e.
                  bind-IfSome (Bounded 255 255) Q (parse_proto strtoul strtok t.proto) _
                    (parse_proto-Bounded t.proto)
                    (λ proto hp.
                      bind-IfSome (λ n. Unit {0}) Q
                        (parse_userdata strtoul strtok t.userdata has_userdata) _ (any-IfSome _)
                        (λ n _.
                          k srcp dstp proto n (ground (arith, e, hs)) (ground (arith, e, hd))
                            hp)))))

  -- A line that is accepted as an IPv4 rule gives addresses of 32 bits under masks of at most 32,
  -- ports of 16 bits in ranges that are not empty, and a protocol and its mask of 8 bits.
  pub parse_cb_ipv4vlan_rule-IsSane4 :
      (str : Line) (has_userdata : Bool)
      → IfSome (λ r. IsSane4 r.fields) (parse_cb_ipv4vlan_rule strtoul strtok str has_userdata)
  unfolding parse_cb_ipv4vlan_rule
  parse_cb_ipv4vlan_rule-IsSane4 str has_userdata =
      bind-IfSome (λ t. Unit {0}) (λ r. IsSane4 r.fields) (split_line (strtok str) has_userdata) _
        (any-IfSome _)
        (λ t _.
          bind-IfSome (Bounded (2 ^ 32 - 1) 32) (λ r. IsSane4 r.fields)
            (parse_ipv4_net strtoul strtok t.src_addr) _ (parse_ipv4_net-Bounded t.src_addr)
            (λ src hsrc.
              bind-IfSome (Bounded (2 ^ 32 - 1) 32) (λ r. IsSane4 r.fields)
                (parse_ipv4_net strtoul strtok t.dst_addr) _ (parse_ipv4_net-Bounded t.dst_addr)
                (λ dst hdst.
                  ports_then (λ r. IsSane4 r.fields) t has_userdata _
                    (λ srcp dstp proto n hs hd hp. record {
                      src = hsrc;
                      dst = hdst;
                      srcp = hs;
                      dstp = hd;
                      proto = hp;
                    }))))

  -- A line that is accepted as an IPv6 rule gives addresses of four words of 32 bits under masks of
  -- at most 32 that are at most 128 together, ports of 16 bits in ranges that are not empty, and a
  -- protocol and its mask of 8 bits.
  pub parse_cb_ipv6_rule-IsSane6 :
      (str : Line) (has_userdata : Bool)
      → IfSome (λ r. IsSane6 r.fields) (parse_cb_ipv6_rule strtoul strtok str has_userdata)
  unfolding parse_cb_ipv6_rule
  parse_cb_ipv6_rule-IsSane6 str has_userdata =
      bind-IfSome (λ t. Unit {0}) (λ r. IsSane6 r.fields) (split_line (strtok str) has_userdata) _
        (any-IfSome _)
        (λ t _.
          bind-IfSome IsNet6 (λ r. IsSane6 r.fields) (parse_ipv6_net strtoul strtok t.src_addr) _
            (parse_ipv6_net-IsNet6 t.src_addr)
            (λ src hsrc.
              bind-IfSome IsNet6 (λ r. IsSane6 r.fields) (parse_ipv6_net strtoul strtok t.dst_addr)
                _ (parse_ipv6_net-IsNet6 t.dst_addr)
                (λ dst hdst.
                  ports_then (λ r. IsSane6 r.fields) t has_userdata _
                    (λ srcp dstp proto n hs hd hp. record {
                      src = hsrc;
                      dst = hdst;
                      srcp = hs;
                      dstp = hd;
                      proto = hp;
                    }))))
