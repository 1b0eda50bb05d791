-- ===== src/Rules.antt =====
-- nf-chain/src/main.c, `is_bypass_line` and `add_rules`: the rules of a file, loaded in two passes.
pub mod Fits
pub mod Kept
mod Tests
use Prim.Native.Nat.{bit_and}
use queue_dpdk.Prelude.{
  ℕ, ◌+◌, ◌-◌, ◌^◌, shift_1, Bool, true, false, Option, none, some, List, [], ◌∷◌, ◌++◌, leb, ◌==◌,
  if◌then◌else◌, length, u32,
}

-- The characters `#`, `@` and `R`.
abbrev pub comment_lead_char : ℕ
comment_lead_char = 35

abbrev pub acl_lead_char : ℕ
acl_lead_char = 64

abbrev pub route_lead_char : ℕ
route_lead_char = 82

-- A line of the file, as its characters; `buff[0]` of an empty one is 0.
abbrev pub Line : Type 0
Line = List ℕ

abbrev pub lead : Line → ℕ
lead [] = 0
lead (c ∷ cs) = c

abbrev pub after_lead : Line → Line
after_lead [] = []
after_lead (c ∷ cs) = cs

-- `struct rte_acl_rule`, with the fields that a parser fills.
pub record Rule (Fields : Type 0) : Type 0 where
  pub fields : Fields
  pub userdata : ℕ
  pub priority : ℕ
  pub category_mask : ℕ

-- The two arrays up to `route_cnt` and `acl_cnt`.
pub record Rules (Fields : Type 0) : Type 0 where
  pub routes : List (Rule Fields)
  pub acls : List (Rule Fields)

-- `rte_exit` is `exits`; `overrun` stands for a write behind the end of an array.
pub data Loaded (A : Type 0) : Type 0 where
  loaded : A → Loaded A
  exits overrun : Loaded A

-- The first pass counts the lines with a lead character.
abbrev pub count_lead : ℕ → List Line → ℕ
count_lead c [] = 0
count_lead c (b ∷ bs) = (if lead b == c then 1 else 0) + count_lead c bs

-- `isspace` is a parameter.
module _ (isspace : ℕ → Bool) where
  pub only_spaces : Line → Bool
  only_spaces [] = true
  only_spaces (c ∷ cs) = let rest = only_spaces cs in if isspace c then rest else false

  pub is_bypass_line : Line → Bool
  is_bypass_line buff = if lead buff == comment_lead_char then true else only_spaces buff

  -- `parser`, the argument of `add_rules`, is told whether a line has userdata.
  module _ {Fields : Type 0} (parser : Line → Bool → Option (Rule Fields))
      (enabled_port_mask max_priority : ℕ) where
    -- What every entry gets: its priority falls with `total_num`.
    pub entry : Rules Fields → Rule Fields → ℕ → Rule Fields
    entry r rule userdata = record rule {
      userdata = u32 userdata;
      priority = max_priority - (length r.routes + length r.acls);
      category_mask = 2 ^ 32 - 1;
    }

    pub add_route : ℕ → Line → Rules Fields → Loaded (Rules Fields)
    add_route route_num buff r =
        if leb route_num (length r.routes) then overrun else elim (parser (after_lead buff) true) [
          | none ↦ exits
          | some rule ↦
              if bit_and enabled_port_mask (shift_1 rule.userdata) == 0
              then exits
              else loaded
                  (record r { routes = r.routes ++ (entry r rule (rule.userdata + 1) ∷ []) })
        ]

    pub add_acl : ℕ → Line → Rules Fields → Loaded (Rules Fields)
    add_acl acl_num buff r =
        if leb acl_num (length r.acls) then overrun else elim (parser (after_lead buff) false) [
          | none ↦ exits
          | some rule ↦
              loaded
                (record r { acls = r.acls ++ (entry r rule (0xf0000000 + length r.acls) ∷ []) })
        ]

    -- One line of the second pass.
    pub add_line : ℕ → ℕ → Line → Rules Fields → Loaded (Rules Fields)
    add_line route_num acl_num buff r =
        if is_bypass_line buff
        then loaded r
        else if lead buff == route_lead_char
        then add_route route_num buff r
        else if lead buff == acl_lead_char
        then add_acl acl_num buff r
        else exits

    pub add_lines : ℕ → ℕ → List Line → Rules Fields → Loaded (Rules Fields)
    add_lines route_num acl_num [] r = loaded r
    add_lines route_num acl_num (b ∷ bs) r = elim (add_line route_num acl_num b r) [
      | loaded r' ↦ add_lines route_num acl_num bs r'
      | exits ↦ exits
      | overrun ↦ overrun
    ]

    -- The file can be opened and memory is had.
    pub add_rules : List Line → Loaded (Rules Fields)
    add_rules bs =
        if count_lead route_lead_char bs == 0
        then exits
        else add_lines (count_lead route_lead_char bs) (count_lead acl_lead_char bs) bs
            (record { routes = []; acls = [] })
