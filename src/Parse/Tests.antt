-- ===== src/Parse/Tests.antt =====
-- Rule lines with numbers of one character each.
use mathlib.Core.List.{append_assoc, append-nil}
use queue_dpdk.Prelude.{
  ◌≡◌, ◌≢◌, refl, ◌∙◌, ap, ℕ, Option, ◌-◌, ◌+◌, ◌*◌, leb, ◌&&◌, if◌then◌else◌, none, false, some,
  List, [], ◌∷◌, ◌++◌, All, arith, ◌==◌,
}
use queue_dpdk.Rules.{Line}
use queue_dpdk.Fields.{mask_range}
use queue_dpdk.Parse.{Ipv4Fields, Ipv6Fields, parse_cb_ipv6_rule, parse_cb_ipv4vlan_rule}
use queue_dpdk.Parse.Samples.{one_char, read_char, words, route}
use queue_dpdk.Parse.Sane.{IsSane4}
use queue_dpdk.Parse.Loads.{LoadedSane, loaded_rules_are_sane}
use queue_dpdk.Parse.Print.{
  IsWord, spaced, Printf, PrintfBytes, print_one_ipv4_rule, print_one_ipv6_rule,
}
use queue_dpdk.Parse.Printed6.{IsPrinted, printed_rules_are_read}

words-word :
    (acc w rest : Line)
    → All (λ c. (c ≢ 32) × (c ≢ 9) × (c ≢ 10)) w
    → words acc (w ++ (32 ∷ rest)) ≡ (acc ++ w) ∷ words [] rest
words-word acc [] rest h = rw (append-nil acc) refl
words-word acc (c ∷ w) rest h =
    let other : (c == 32) ≡ false = ground (arith, h.0) in
    rw other (words-word (acc ++ (c ∷ [])) w rest h.1 ∙ rw (append_assoc acc (c ∷ []) w) refl)

words-spaced : (ws : List Line) → All IsWord ws → words [] (spaced ws) ≡ ws
unfolding spaced
words-spaced [] h = refl
words-spaced (w ∷ ws) h = words-word [] w (spaced ws) h.0.1 ∙ ap (λ l. w ∷ l) (words-spaced ws h.1)

-- In base 16 a number is two characters, each for a byte.
abbrev read_bytes : Line → Option (ℕ × Line)
read_bytes (a ∷ b ∷ cs) =
    if leb 100 a && leb 100 b then some ((a - 100) * 256 + (b - 100), cs) else none
read_bytes _ = none

abbrev read_either : Line → ℕ → Option (ℕ × Line)
read_either cs base = if base == 16 then read_bytes cs else read_char cs base

one_char-Printf : Printf read_either (words []) one_char one_char
one_char-Printf = record {
  dec_read = λ n end h e. ground arith;
  hex_read = λ n end h e. ground arith;
  strtok_spaced = words-spaced;
  dec-IsWord = λ n. (λ e. cc e, (ground arith, tt));
  hex-IsWord = λ n. (λ e. cc e, (ground arith, tt));
}

one_char-PrintfBytes : PrintfBytes read_either one_char
one_char-PrintfBytes = record {
  bytes_read = λ a b end h l e. ground arith;
  byte-IsWord = λ n. (λ e. cc e, (ground arith, tt));
}

abbrev entry : Ipv4Fields
entry = record {
  proto = record { value = 17; mask_range = 255 };
  src = record { value = 3232235521; mask_range = 24 };
  dst = record { value = 0; mask_range = 0 };
  srcp = record { value = 0; mask_range = 65535 };
  dstp = record { value = 53; mask_range = 53 };
}

entry-IsSane4 : IsSane4 entry
entry-IsSane4 = record {
  src = (omega arith, omega arith);
  dst = (omega arith, omega arith);
  srcp = (omega arith, omega arith);
  dstp = (omega arith, omega arith);
  proto = (omega arith, omega arith);
}

abbrev entry6 : Ipv6Fields
entry6 = record {
  proto = record { value = 6; mask_range = 255 };
  src =
      record { value = 536939960; mask_range = 32 }
      ∷ record { value = 4294901760; mask_range = 16 }
      ∷ record { value = 0; mask_range = 0 }
      ∷ record { value = 1; mask_range = 0 }
      ∷ [];
  dst =
      record { value = 0; mask_range = 0 }
      ∷ record { value = 0; mask_range = 0 }
      ∷ record { value = 0; mask_range = 0 }
      ∷ record { value = 0; mask_range = 0 }
      ∷ [];
  srcp = record { value = 0; mask_range = 65535 };
  dstp = record { value = 80; mask_range = 90 };
}

entry6-IsPrinted : IsPrinted 48 0 entry6
unfolding mask_range
entry6-IsPrinted = record {
  src = (
    omega arith,
    (omega arith, refl),
    (omega arith, refl),
    (omega arith, refl),
    (omega arith, refl),
  );
  dst = (
    omega arith,
    (omega arith, refl),
    (omega arith, refl),
    (omega arith, refl),
    (omega arith, refl),
  );
  srcp = (omega arith, omega arith);
  dstp = (omega arith, omega arith);
  proto = (omega arith, omega arith);
}

printed_rules_are_read_example :
    (parse_cb_ipv4vlan_rule read_either
        (words [])
        (print_one_ipv4_rule one_char one_char entry)
        false
      ≡ some (record { fields = entry; userdata = 0; priority = 0; category_mask = 0 }))
    × (parse_cb_ipv6_rule read_either
          (words [])
          (print_one_ipv6_rule one_char one_char one_char entry6)
          false
        ≡ some (record { fields = entry6; userdata = 0; priority = 0; category_mask = 0 }))
printed_rules_are_read_example =
    printed_rules_are_read read_either (words []) one_char one_char one_char one_char-Printf
      one_char-PrintfBytes entry 48 0 entry6 entry-IsSane4 entry6-IsPrinted

loaded_rules_are_sane_example :
    LoadedSane (◌==◌ 32) read_char (words []) 3 1000 (route ∷ []) (route ∷ [])
loaded_rules_are_sane_example =
    loaded_rules_are_sane (◌==◌ 32) read_char (words []) 3 1000 (route ∷ []) (route ∷ [])
