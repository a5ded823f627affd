-- ===== src/IpFilter/Examples.antt =====
-- The filter over a small package net, and its theorem there.
use pre_code.Common.{◌≡◌, refl, true, false, none, some, List, [], ◌∷◌, String, str_eq}
use pre_code.IpFilter.{
  is_trusted_proxy, contains_any, NetPackage, Request, new_filter, network_of, deny_ip,
  set_deny_all, is_allowed, extract_client_ip, middleware,
}
use pre_code.IpFilter.Denials.{Op, allows, run, deny_ip-refuses}

-- Every address is its own network, and no range is read.
abbrev hosts : NetPackage String String
hosts = record {
  parse_cidr = λ cidr. none;
  parse_ip = λ s. some s;
  host_network = λ ip. ip;
  contains = λ network ip. str_eq network ip;
}

abbrev later : List Op
later = allows "1.2.3.4" ∷ []

abbrev req : Request
req = record { forwarded_for = []; real_ip = "1.2.3.4"; remote_host = "9.9.9.9" }

abbrev host : String
host = "1.2.3.4"

known : network_of hosts host ≡ some host
unfolding network_of
known = refl

deny_ip-refuses_example :
    let f' = run hosts later (deny_ip hosts host (new_filter hosts)) in
    (is_allowed hosts host f' ≡ false)
    × (extract_client_ip hosts req f' ≡ some host → middleware hosts req f' ≡ false)
deny_ip-refuses_example =
    deny_ip-refuses hosts host host later host (new_filter hosts) req known refl

-- A denial after DenyAll lets every other address in again.
reopened :
    is_allowed hosts "5.5.5.5" (deny_ip hosts host (set_deny_all hosts (new_filter hosts))) ≡ true
unfolding is_allowed deny_ip network_of contains_any set_deny_all new_filter
reopened = refl

-- With no trusted proxy, the header of any client is believed.
believed : extract_client_ip hosts req (new_filter hosts) ≡ some "1.2.3.4"
unfolding extract_client_ip is_trusted_proxy contains_any new_filter
believed = refl
