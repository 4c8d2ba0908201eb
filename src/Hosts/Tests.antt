-- ===== src/Hosts/Tests.antt =====
-- A store of two hosts.
use d9c.Base.{◌≡◌, refl, none, some, Option, [], ◌∷◌, String, decimal}
use d9c.Hosts.{Host}
use d9c.Hosts.Store.{
  Store, plain_host, find, first_free, candidate, unique_name, add, add_host, edit_host, edit,
  remove, upsert_by_host, import_host,
}
use d9c.Hosts.Store.Names.{unique_name_free}
use d9c.Hosts.Store.Distinct.{AreDistinct}
use d9c.Hosts.Store.Kept.{store-AreDistinct}

abbrev prod : Host
prod = plain_host "prod" "ssh://root@10.0.0.1"

abbrev prod_2 : Host
prod_2 = plain_host "prod-2" "tcp://10.0.0.2:2376"

abbrev two_hosts : Store
two_hosts = record { hosts = prod ∷ prod_2 ∷ []; persist = none }

two_hosts-AreDistinct : AreDistinct two_hosts.hosts
unfolding find
two_hosts-AreDistinct = (refl, (refl, tt))

-- A stand-in for net/url.Parse that reads no URL.
abbrev no_url : String → Option (String × String)
no_url s = none

unique_name_free_example :
    (n : String) × (unique_name two_hosts.hosts "prod" ≡ some n) × (find two_hosts.hosts n ≡ none)
unique_name_free_example = unique_name_free two_hosts.hosts "prod"

-- The first name that is free is the third one tried.
third_name : unique_name two_hosts.hosts "prod" ≡ some "prod-3"
unfolding unique_name first_free find candidate decimal
third_name = refl

store-AreDistinct_example :
    AreDistinct (add two_hosts "prod" "ssh://b").0.hosts
    × AreDistinct (add_host two_hosts prod).0.hosts
    × AreDistinct (edit_host two_hosts "prod" prod).0.hosts
    × AreDistinct (edit two_hosts "prod" "prod-2" "ssh://b").0.hosts
    × AreDistinct (remove two_hosts "prod").0.hosts
    × AreDistinct (upsert_by_host no_url two_hosts "ssh://b").0.hosts
    × AreDistinct (import_host two_hosts prod).0.hosts
store-AreDistinct_example =
    store-AreDistinct no_url two_hosts "prod" "ssh://b" "prod-2" prod two_hosts-AreDistinct
