-- ===== src/Parse/Print.antt =====
-- nf-chain/src/main.c, `print_one_ipv4_rule` and `print_one_ipv6_rule`: the line that is printed for a
-- rule, without the extra fields.
use queue_dpdk.Prelude.{
  ℕ, ◌+◌, ◌*◌, ◌/◌, ◌%◌, ◌^◌, ◌<◌, ◌≡◌, ◌≢◌, ◌⊎◌, Option, some, List, [], ◌∷◌, ◌++◌, All, u32,
}
use queue_dpdk.Rules.{Line, lead}
use queue_dpdk.Parse.{Field, Ipv4Fields, Ipv6Fields, slash, colon, dot}

-- A text that `strtok_r` with the delimiters space, tab and newline takes for one token.
abbrev pub IsWord : Line → Type 0
IsWord w = (w ≢ []) × All (λ c. (c ≢ 32) × (c ≢ 9) × (c ≢ 10)) w

-- Each token with the space that is printed behind it.
unfoldable pub spaced : List Line → Line
spaced [] = []
spaced (w ∷ ws) = w ++ (32 ∷ spaced ws)

-- A number ends with the text, or at a dot or a slash.
abbrev pub IsEnd : Line → Type 0
IsEnd end = (end ≡ []) ⊎ (lead end ≡ dot) ⊎ (lead end ≡ slash)

-- `%u`, `%hu` and `%hhu` of `printf` as `dec`, and `0x%hhx` as `hex`, with what `strtoul` for base
-- 0 and `strtok_r` make of them: a number of 32 bits is read up to its end, and the tokens of a
-- text are its words.
pub record Printf (strtoul : Line → ℕ → Option (ℕ × Line)) (strtok : Line → List Line)
    (dec hex : ℕ → Line) : Type 0 where
  pub dec_read :
      (n : ℕ) (end : Line) → n < 2 ^ 32 → IsEnd end → strtoul (dec n ++ end) 0 ≡ some (n, end)
  pub hex_read :
      (n : ℕ) (end : Line) → n < 2 ^ 32 → IsEnd end → strtoul (hex n ++ end) 0 ≡ some (n, end)
  pub strtok_spaced : (ws : List Line) → All IsWord ws → strtok (spaced ws) ≡ ws
  pub dec-IsWord : (n : ℕ) → IsWord (dec n)
  pub hex-IsWord : (n : ℕ) → IsWord (hex n)

-- `%.2x` of a byte as `byte`: two of them are the digits that `strtoul` for base 16 reads up to a
-- colon or a slash.
pub record PrintfBytes (strtoul : Line → ℕ → Option (ℕ × Line)) (byte : ℕ → Line) : Type 0 where
  pub bytes_read :
      (a b : ℕ) (end : Line)
      → a < 256
      → b < 256
      → (lead end ≡ colon) ⊎ (lead end ≡ slash)
      → strtoul (byte a ++ (byte b ++ end)) 16 ≡ some (a * 256 + b, end)
  pub byte-IsWord : (a : ℕ) → IsWord (byte a)

module _ (dec hex : ℕ → Line) where
  -- `%hhu.%hhu.%hhu.%hhu/%u` of an address that `uint32_t_to_char` has split.
  unfoldable pub print_net : Field → Line
  print_net f =
      dec (f.value / 2 ^ 24 % 256)
      ++ (dot
          ∷ (dec (f.value / 2 ^ 16 % 256)
              ++ (dot
                  ∷ (dec (f.value / 2 ^ 8 % 256)
                      ++ (dot ∷ (dec (f.value % 256) ++ (slash ∷ (dec f.mask_range ++ []))))))))

  -- The words of the ports and the protocol, which are printed alike for both kinds.
  abbrev pub print_ports : Field → Field → Field → List Line
  print_ports srcp dstp proto =
      (dec srcp.value ++ [])
      ∷ (colon ∷ [])
      ∷ (dec srcp.mask_range ++ [])
      ∷ (dec dstp.value ++ [])
      ∷ (colon ∷ [])
      ∷ (dec dstp.mask_range ++ [])
      ∷ (hex proto.value ++ (slash ∷ (hex proto.mask_range ++ [])))
      ∷ []

  -- The words of the line.
  unfoldable pub print_words : Ipv4Fields → List Line
  print_words f = print_net f.src ∷ print_net f.dst ∷ print_ports f.srcp f.dstp f.proto

  unfoldable pub print_one_ipv4_rule : Ipv4Fields → Line
  print_one_ipv4_rule f = spaced (print_words f)

module _ (dec hex byte : ℕ → Line) where
  -- `%.2x%.2x:%.2x%.2x` of a word that `uint32_t_to_char` has split.
  abbrev pub print_quad : ℕ → Line → Line
  print_quad v rest =
      byte (v / 2 ^ 24 % 256)
      ++ (byte (v / 2 ^ 16 % 256) ++ (colon ∷ (byte (v / 2 ^ 8 % 256) ++ (byte (v % 256) ++ rest))))

  -- An address and, behind a slash, its mask.
  unfoldable pub print_net6 : List Field → Line
  print_net6 (a ∷ b ∷ c ∷ d ∷ []) = print_quad a.value (
      colon
      ∷ print_quad b.value (
          colon
          ∷ print_quad c.value (
              colon
              ∷ print_quad d.value (
                  slash
                  ∷ (dec (u32 (a.mask_range + b.mask_range + c.mask_range + d.mask_range))
                      ++ [])))))
  print_net6 _ = []

  -- The words of the line.
  abbrev pub print_words6 : Ipv6Fields → List Line
  print_words6 f = print_net6 f.src ∷ print_net6 f.dst ∷ print_ports dec hex f.srcp f.dstp f.proto

  unfoldable pub print_one_ipv6_rule : Ipv6Fields → Line
  print_one_ipv6_rule f = spaced (print_words6 f)
