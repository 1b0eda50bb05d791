-- ===== src/Parse/Printed.antt =====
-- nf-chain/src/main.c, `print_one_ipv4_rule`: what it prints, without the extra fields, is read back.
use mathlib.Core.List.{append-nil}
use queue_dpdk.Prelude.{
  All-append, ℕ, ◌-◌, ◌/◌, ◌%◌, ◌^◌, ◌≤◌, ◌<◌, ◌≡◌, ◌≢◌, ◌⊎◌, inl, inr, refl, true, false, Option,
  some, List, [], ◌∷◌, ◌++◌, All, arith,
}
use queue_dpdk.Rules.{Line}
use queue_dpdk.Parse.{
  Field, Ipv4Fields, slash, colon, dot, rte_ipv4, get_cb_field, parse_ipv4_net, split_line,
  parse_ports, is_port_delim, parse_proto, parse_userdata, are_ranges, parse_cb_ipv4vlan_rule,
}
use queue_dpdk.Parse.Print.{
  IsWord, Printf, print_net, print_ports, print_words, print_one_ipv4_rule,
}
use queue_dpdk.Parse.Sane.{IsSane4}

append_not_nil : (w : Line) (c : ℕ) (v : Line) → w ++ (c ∷ v) ≢ []
append_not_nil [] c v e = cc e
append_not_nil (x ∷ w) c v e = cc e

module _ (strtoul : Line → ℕ → Option (ℕ × Line)) (strtok : Line → List Line) (dec hex : ℕ → Line)
    (K : Printf strtoul strtok dec hex) where
  dec_field :
      (n lim dlm : ℕ) (rest : Line)
      → n ≤ lim
      → lim < 2 ^ 32
      → (dlm ≡ dot) ⊎ (dlm ≡ slash)
      → get_cb_field strtoul strtok (dec n ++ (dlm ∷ rest)) 0 lim dlm ≡ some (n, rest)
  unfolding get_cb_field
  dec_field n lim dlm rest h l d =
      rw (K.dec_read n (dlm ∷ rest) (omega arith) (inr d)) (ground (arith, h))

  pub dec_last :
      (n lim : ℕ)
      → n ≤ lim
      → lim < 2 ^ 32
      → get_cb_field strtoul strtok (dec n ++ []) 0 lim 0 ≡ some (n, [])
  unfolding get_cb_field
  dec_last n lim h l = rw (K.dec_read n [] (omega arith) (inl refl)) (ground (arith, h))

  hex_field :
      (n lim : ℕ) (rest : Line)
      → n ≤ lim
      → lim < 2 ^ 32
      → get_cb_field strtoul strtok (hex n ++ (slash ∷ rest)) 0 lim slash ≡ some (n, rest)
  unfolding get_cb_field
  hex_field n lim rest h l =
      rw (K.hex_read n (slash ∷ rest) (omega arith) (inr (inr refl))) (ground (arith, h))

  hex_last :
      (n lim : ℕ)
      → n ≤ lim
      → lim < 2 ^ 32
      → get_cb_field strtoul strtok (hex n ++ []) 0 lim 0 ≡ some (n, [])
  unfolding get_cb_field
  hex_last n lim h l = rw (K.hex_read n [] (omega arith) (inl refl)) (ground (arith, h))

  bytes_of :
      (v : ℕ)
      → v ≤ 2 ^ 32 - 1
      → rte_ipv4 (v / 2 ^ 24 % 256) (v / 2 ^ 16 % 256) (v / 2 ^ 8 % 256) (v % 256) ≡ v
  bytes_of v h = omega arith

  parse_ipv4_net-print_net :
      (f : Field)
      → f.value ≤ 2 ^ 32 - 1
      → f.mask_range ≤ 32
      → parse_ipv4_net strtoul strtok (print_net dec hex f) ≡ some f
  unfolding parse_ipv4_net print_net
  parse_ipv4_net-print_net f h m =
      rw
        (
          parse_ipv4_net,
          dec_field (f.value / 2 ^ 24 % 256) 255 dot _ (omega arith) (omega arith) (inl refl),
          dec_field (f.value / 2 ^ 16 % 256) 255 dot _ (omega arith) (omega arith) (inl refl),
          dec_field (f.value / 2 ^ 8 % 256) 255 dot _ (omega arith) (omega arith) (inl refl),
          dec_field (f.value % 256) 255 slash _ (omega arith) (omega arith) (inr refl),
          dec_last f.mask_range 32 m (omega arith),
          bytes_of f.value h,
        )
        refl

  pub parse_ports-printed :
      (f : Field)
      → f.value ≤ 65535
      → f.mask_range ≤ 65535
      → parse_ports strtoul strtok (dec f.value ++ []) (colon ∷ []) (dec f.mask_range ++ [])
        ≡ some f
  unfolding parse_ports is_port_delim
  parse_ports-printed f h m =
      rw
        (
          parse_ports,
          dec_last f.value 65535 h (omega arith),
          dec_last f.mask_range 65535 m (omega arith),
        )
        refl

  pub parse_proto-printed :
      (f : Field)
      → f.value ≤ 255
      → f.mask_range ≤ 255
      → parse_proto strtoul strtok (hex f.value ++ (slash ∷ (hex f.mask_range ++ []))) ≡ some f
  unfolding parse_proto
  parse_proto-printed f h m =
      rw
        (
          parse_proto,
          hex_field f.value 255 _ h (omega arith),
          hex_last f.mask_range 255 m (omega arith),
        )
        refl

  pub append-IsWord :
      (w : Line) (c : ℕ) (v : Line)
      → IsWord w
      → (c ≢ 32) × (c ≢ 9) × (c ≢ 10)
      → IsWord v
      → IsWord (w ++ (c ∷ v))
  append-IsWord w c v a b d = (append_not_nil w c v, All-append _ w (c ∷ v) a.1 (b, d.1))

  pub alone-IsWord : (w : Line) → IsWord w → IsWord (w ++ [])
  alone-IsWord w a = rw (append-nil w) a

  print_net-IsWord : (f : Field) → IsWord (print_net dec hex f)
  unfolding print_net
  print_net-IsWord f = append-IsWord _ dot _ (K.dec-IsWord _) (ground arith) (
      append-IsWord _ dot _ (K.dec-IsWord _) (ground arith) (
        append-IsWord _ dot _ (K.dec-IsWord _) (ground arith) (
          append-IsWord _ slash _ (K.dec-IsWord _) (ground arith)
            (alone-IsWord _ (K.dec-IsWord _)))))

  pub print_ports-IsWord :
      (srcp dstp proto : Field) → All IsWord (print_ports dec hex srcp dstp proto)
  print_ports-IsWord srcp dstp proto = (
    number srcp.value,
    (
      colon-IsWord,
      (
        number srcp.mask_range,
        (number dstp.value, (colon-IsWord, (number dstp.mask_range, (masked, tt)))),
      ),
    ),
  )
    where
      number : (n : ℕ) → IsWord (dec n ++ [])
      number n = alone-IsWord (dec n) (K.dec-IsWord n)

      colon-IsWord : IsWord (colon ∷ [])
      colon-IsWord = (λ e. cc e, (ground arith, tt))

      masked : IsWord (hex proto.value ++ (slash ∷ (hex proto.mask_range ++ [])))
      masked =
          append-IsWord _ slash _ (K.hex-IsWord _) (ground arith) (alone-IsWord _ (K.hex-IsWord _))

  print_words-IsWord : (f : Ipv4Fields) → All IsWord (print_words dec hex f)
  unfolding print_words
  print_words-IsWord f =
      (print_net-IsWord f.src, (print_net-IsWord f.dst, print_ports-IsWord f.srcp f.dstp f.proto))

  -- If `printf` writes numbers that `strtoul` reads back, the line that is printed for an IPv4
  -- entry with fields in their bounds is parsed, as an ACL entry, into the same fields.
  pub parse-print_one_ipv4_rule :
      (f : Ipv4Fields)
      → IsSane4 f
      → parse_cb_ipv4vlan_rule strtoul strtok (print_one_ipv4_rule dec hex f) false
        ≡ some (record { fields = f; userdata = 0; priority = 0; category_mask = 0 })
  unfolding parse_cb_ipv4vlan_rule print_one_ipv4_rule print_words split_line parse_userdata
  parse-print_one_ipv4_rule f s =
      let ranges : are_ranges f.srcp f.dstp ≡ true = ground (arith, s.srcp, s.dstp) in
      rw
        (
          parse_cb_ipv4vlan_rule,
          K.strtok_spaced (print_words dec hex f) (print_words-IsWord f),
          parse_ipv4_net-print_net f.src s.src.0 s.src.1,
          parse_ipv4_net-print_net f.dst s.dst.0 s.dst.1,
          parse_ports-printed f.srcp (omega (arith, s.srcp)) s.srcp.1,
          parse_ports-printed f.dstp (omega (arith, s.dstp)) s.dstp.1,
          ranges,
          parse_proto-printed f.proto s.proto.0 s.proto.1,
        )
        refl
