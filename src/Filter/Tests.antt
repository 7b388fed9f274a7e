-- ===== src/Filter/Tests.antt =====
-- Runs of plugins/filter_domains.c with the table of domain names.
use io_monitor.Prelude.{
  ◌^◌, ◌-◌, Bool, true, false, not, ◌&&◌, List, [], ◌∷◌, and-eq-true, Bytes, none, some, All,
  str_eq, ◌≡◌, refl, arith, test_bit,
}
use io_monitor.Tokens.{IsWord}
use io_monitor.Mask.{is_comma, domain_list_to_bit_mask}
use io_monitor.Mask.Tests.{domains_names, domains_names-IsNames}
use io_monitor.Filter.Printing.{print_mask_behind}
use io_monitor.Filter.RoundTrip.{IsNameTable, domain_list_to_bit_mask-print_mask}
use io_monitor.Filter.{print_mask}

behind_example : print_mask domains_names (2 ^ 32 - 1) ≡ none
unfolding test_bit
behind_example = print_mask_behind domains_names (2 ^ 32 - 1) 19 (omega arith) refl refl

-- No byte of the text is a comma.
abbrev plain : Bytes → Bool
plain [] = true
plain (c ∷ s) = not (is_comma c) && plain s

abbrev all_plain : List Bytes → Bool
all_plain [] = true
all_plain ([] ∷ ns) = false
all_plain ((c ∷ s) ∷ ns) = plain (c ∷ s) && all_plain ns

plain_lem : (s : Bytes) → plain s ≡ true → All (λ c. is_comma c ≡ false) s
plain_lem [] h = tt
plain_lem (c ∷ s) h =
    let both = and-eq-true {a = not (is_comma c)} h in (ground (arith, both.0), plain_lem s both.1)

all_plain_lem : (ns : List Bytes) → all_plain ns ≡ true → All (IsWord is_comma) ns
all_plain_lem [] h = tt
all_plain_lem ([] ∷ ns) h = cc
all_plain_lem ((c ∷ s) ∷ ns) h =
    let both = and-eq-true {a = plain (c ∷ s)} h in
    ((λ e. cc, plain_lem (c ∷ s) both.0), all_plain_lem ns both.1)

domains_names-IsNameTable : IsNameTable domains_names
unfolding str_eq
domains_names-IsNameTable = record {
  table = domains_names-IsNames;
  words = all_plain_lem domains_names refl;
  not_all = assumption refl;
}

round_trip_example :
    (text : Bytes) × (print_mask domains_names 4128 ≡ some text)
    × (domain_list_to_bit_mask domains_names text ≡ 4128)
round_trip_example =
    domain_list_to_bit_mask-print_mask domains_names 4128 domains_names-IsNameTable (omega arith)
