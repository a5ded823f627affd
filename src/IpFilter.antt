-- ===== src/IpFilter.antt =====
-- Access by client address (internal/ipfilter/ipfilter.go). The lock makes each method one step. The
-- package net is a parameter; of a request, the model has the parts of X-Forwarded-For, split and
-- trimmed, X-Real-Ip, trimmed, and the host of the remote address.
pub mod Denials
mod Examples
use pre_code.Common.{
  Bool, true, false, not, ◌||◌, Option, none, some, List, [], ◌∷◌, ◌++◌, String, if◌then◌else◌,
}

-- `ParseCIDR` and `ParseIP`, where `none` is an error or nil, the network of one address, and
-- `Contains`.
pub record NetPackage (Net Ip : Type 0) : Type 0 where
  pub parse_cidr : String → Option Net
  pub parse_ip : String → Option Ip
  pub host_network : Ip → Net
  pub contains : Net → Ip → Bool

pub record Filter (Net : Type 0) : Type 0 where
  pub allow_list : List Net
  pub deny_list : List Net
  pub allow_all : Bool
  pub deny_all : Bool
  pub trusted_proxies : List Net

pub record Request : Type 0 where
  pub forwarded_for : List String
  pub real_ip : String
  pub remote_host : String

module _ {Net Ip : Type 0} (net : NetPackage Net Ip) where
  unfoldable pub new_filter : Filter Net
  new_filter = record {
    allow_list = [];
    deny_list = [];
    allow_all = true;
    deny_all = false;
    trusted_proxies = [];
  }

  host_network_of : Option Ip → Option Net
  host_network_of none = none
  host_network_of (some ip) = some (net.host_network ip)

  network_or : Option Net → Option Ip → Option Net
  unfolding host_network_of
  network_or none ip = host_network_of ip
  network_or (some network) ip = some network

  -- A range, or else a single address; `none` is an error.
  unfoldable pub network_of : String → Option Net
  unfolding network_or
  network_of cidr = network_or (net.parse_cidr cidr) (net.parse_ip cidr)

  allowed : Filter Net → Option Net → Filter Net
  allowed f none = f
  allowed f (some network) = record f {
    allow_list = f.allow_list ++ network ∷ [];
    allow_all = false;
  }

  -- After an error the filter is as it was.
  unfoldable pub allow_ip : String → Filter Net → Filter Net
  unfolding allowed
  allow_ip cidr f = allowed f (network_of cidr)

  denied : Filter Net → Option Net → Filter Net
  denied f none = f
  denied f (some network) = record f { deny_list = f.deny_list ++ network ∷ []; deny_all = false }

  unfoldable pub deny_ip : String → Filter Net → Filter Net
  unfolding denied
  deny_ip cidr f = denied f (network_of cidr)

  unfoldable pub set_allow_all : Filter Net → Filter Net
  set_allow_all f = record f { allow_list = []; deny_list = []; deny_all = false; allow_all = true }

  unfoldable pub set_deny_all : Filter Net → Filter Net
  set_deny_all f = record f { deny_all = true }

  trusted : Filter Net → Option Net → Filter Net
  trusted f none = f
  trusted f (some network) = record f { trusted_proxies = f.trusted_proxies ++ network ∷ [] }

  unfoldable pub add_trusted_proxy : String → Filter Net → Filter Net
  unfolding trusted
  add_trusted_proxy cidr f = trusted f (network_of cidr)

  -- `for _, network := range networks { if network.Contains(ip) { return true } }`
  unfoldable pub contains_any : Ip → List Net → Bool
  contains_any ip [] = false
  contains_any ip (network ∷ networks) =
      let rest = contains_any ip networks in if net.contains network ip then true else rest

  unfoldable pub is_allowed : Ip → Filter Net → Bool
  is_allowed ip f =
      if f.deny_all
      then false
      else if contains_any ip f.deny_list
      then false
      else if f.allow_all
      then true
      else contains_any ip f.allow_list

  unfoldable pub is_trusted_proxy : Ip → Filter Net → Bool
  is_trusted_proxy ip f = contains_any ip f.trusted_proxies

  -- `ip != nil && !f.isTrustedProxyLocked(ip)`
  client_or : Filter Net → Option Ip → Option Ip → Option Ip
  client_or f none other = other
  client_or f (some ip) other = if is_trusted_proxy ip f then other else some ip

  first_client : Filter Net → List String → Option Ip → Option Ip
  unfolding client_or
  first_client f [] other = other
  first_client f (part ∷ parts) other = client_or f (net.parse_ip part) (first_client f parts other)

  -- An empty header has no part, and no address.
  unfoldable pub extract_client_ip : Request → Filter Net → Option Ip
  unfolding first_client client_or
  extract_client_ip req f =
      first_client f req.forwarded_for
        (client_or f (net.parse_ip req.real_ip) (net.parse_ip req.remote_host))

  admitted : Filter Net → Option Ip → Bool
  admitted f none = false
  admitted f (some ip) = is_allowed ip f

  -- `Middleware`: whether the request goes on to the next handler, or is forbidden.
  unfoldable pub middleware : Request → Filter Net → Bool
  unfolding admitted
  middleware req f = admitted f (extract_client_ip req f)
