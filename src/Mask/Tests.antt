-- ===== src/Mask/Tests.antt =====
-- The table of names that the build generates from include/domains.h, and runs of the mask.
use io_monitor.Prelude.{◌||◌, List, [], ◌∷◌, Bytes, codes, test_bit, str_eq, ◌≡◌, refl}
use io_monitor.Tokens.{words, tokens, tokens-eq-words}
use io_monitor.Mask.{is_comma, domain_list_to_bit_mask}
use io_monitor.Mask.Meaning.{IsNames, contains, domain_list_to_bit_mask-test_bit}

abbrev pub domains_names : List Bytes
domains_names =
    codes "LINKS"
    ∷ codes "XATTRS"
    ∷ codes "DIRS"
    ∷ codes "FILE_SYSTEMS"
    ∷ codes "FILE_DESCRIPTORS"
    ∷ codes "SYNCS"
    ∷ codes "SOCKETS"
    ∷ codes "SEEKS"
    ∷ codes "FILE_SPACE"
    ∷ codes "PROCESSES"
    ∷ codes "FILE_METADATA"
    ∷ codes "FILE_WRITE"
    ∷ codes "FILE_READ"
    ∷ codes "FILE_OPEN_CLOSE"
    ∷ codes "MISC"
    ∷ codes "DIR_METADATA"
    ∷ codes "START_STOP"
    ∷ codes "HTTP"
    ∷ codes "THREADS"
    ∷ []

pub domains_names-IsNames : IsNames domains_names
unfolding str_eq
domains_names-IsNames = record { complete = refl; distinct = assumption refl }

abbrev pub two_domains : Bytes
two_domains = codes "FILE_READ,SYNCS"

test_bit_example : test_bit (domain_list_to_bit_mask domains_names two_domains) 5 ≡ (
    contains (codes "SYNCS") (words is_comma two_domains)
    || contains (codes "ALL") (words is_comma two_domains))
test_bit_example =
    domain_list_to_bit_mask-test_bit domains_names 5 (codes "SYNCS") two_domains
      domains_names-IsNames refl

tokens_example : tokens is_comma (codes ",,LINKS,,DIRS,") ≡ words is_comma (codes ",,LINKS,,DIRS,")
tokens_example = tokens-eq-words is_comma (codes ",,LINKS,,DIRS,")
