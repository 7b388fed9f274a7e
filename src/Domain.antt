-- ===== src/Domain.antt =====
-- include/domains.h: DOMAIN_TYPE, and the value that C gives to each enumerator.
mod Laws
use io_monitor.Prelude.{ℕ}

pub data Domain : Type 0 where
  links xattrs dirs file_systems file_descriptors syncs sockets seeks file_space processes : Domain
  file_metadata file_write file_read file_open_close misc dir_metadata start_stop http : Domain
  threads : Domain

-- The value of an enumerator, counted from 0.
unfoldable pub domain_value : Domain → ℕ
domain_value links = 0
domain_value xattrs = 1
domain_value dirs = 2
domain_value file_systems = 3
domain_value file_descriptors = 4
domain_value syncs = 5
domain_value sockets = 6
domain_value seeks = 7
domain_value file_space = 8
domain_value processes = 9
domain_value file_metadata = 10
domain_value file_write = 11
domain_value file_read = 12
domain_value file_open_close = 13
domain_value misc = 14
domain_value dir_metadata = 15
domain_value start_stop = 16
domain_value http = 17
domain_value threads = 18

-- END_DOMAINS
abbrev pub end_domains : ℕ
end_domains = 19
