-- ===== src/Domain/Laws.antt =====
-- The enumerators of include/domains.h fit the bits of an `unsigned int` mask.
use io_monitor.Prelude.{◌<◌, arith}
use io_monitor.Domain.{Domain, domain_value, end_domains}

domain_value-lt : (d : Domain) → domain_value d < end_domains
unfolding domain_value
domain_value-lt d = ground arith
