-- ===== src/Discovery/EntryLaws.antt =====
-- What fromEntry of internal/discovery/mdns.go reads of an announcement.
use chirp.Prelude.{
  ◌<◌, ◌≡◌, ◌≢◌, Bool, List, [], ◌∷◌, ◌++◌, Text, text_eq, some, ok, length, map, arith,
}
use chirp.Prelude.Int.{pos, ltb_ℤ}
use chirp.Bytes.Strings.{cut}
use chirp.Discovery.{Announcement, itoa, join_host_port}
use chirp.Discovery.Entries.{announced_as, find_value, global_addrs, from_entry}

-- The text records that Announce publishes are read back by fromEntry as the same name and
-- fingerprint, with every IPv4 address and those IPv6 addresses that are not link-local, each
-- joined with the port. The name is not empty, the fingerprint has 64 digits, the port is between 1
-- and 65535, and there is an IPv4 address.
from_entry-announced :
    (a : Announcement) (instance_name : Text) (records : List Text) (ip : Text) (ips : List Text)
    (ipv6 : List (Text × Bool))
    → announced_as a ≡ ok (instance_name, records)
    → a.name ≢ []
    → length a.fp ≡ 64
    → 0 < a.port
    → a.port < 65536
    → from_entry (record { text = records; port = pos a.port; ipv4 = ip ∷ ips; ipv6 = ipv6 })
      ≡ some (record {
        name = a.name;
        fp = a.fp;
        addrs =
            map (λ host. join_host_port host (itoa a.port)) (ip ∷ ips)
            ++ global_addrs (itoa a.port) ipv6;
      })
unfolding announced_as from_entry find_value cut text_eq ltb_ℤ
from_entry-announced a instance_name records ip ips ipv6 h n f p q = ground arith
