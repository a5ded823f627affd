-- ===== src/IpFilter/Denials.antt =====
-- What is denied stays denied.
use pre_code.Common.{
  ◌≡◌, refl, sym, ◌∙◌, true, false, Option, none, some, List, [], ◌∷◌, ◌++◌, String, Bool-cases,
  inl, inr, arith,
}
use pre_code.IpFilter.{
  NetPackage, Filter, Request, network_of, allowed, allow_ip, denied, deny_ip, set_deny_all,
  trusted, add_trusted_proxy, contains_any, is_allowed, extract_client_ip, admitted, middleware,
}

-- All operations but AllowAll, which clears the lists.
pub data Op : Type 0 where
  allows : String → Op
  denies : String → Op
  denies_all : Op
  trusts : String → Op

module _ {Net Ip : Type 0} (net : NetPackage Net Ip) where
  unfoldable pub step : Op → Filter Net → Filter Net
  step (allows cidr) f = allow_ip net cidr f
  step (denies cidr) f = deny_ip net cidr f
  step denies_all f = set_deny_all net f
  step (trusts cidr) f = add_trusted_proxy net cidr f

  unfoldable pub run : List Op → Filter Net → Filter Net
  run [] f = f
  run (o ∷ os) f = run os (step o f)

  abbrev Denies : Ip → Filter Net → Type 0
  Denies ip f = contains_any net ip f.deny_list ≡ true

  contains_any-append :
      (ip : Ip) (xs ys : List Net)
      → contains_any net ip xs ≡ true
      → contains_any net ip (xs ++ ys) ≡ true
  unfolding contains_any
  contains_any-append ip [] ys h = ground (arith, h)
  contains_any-append ip (x ∷ xs) ys h = elim (Bool-cases (net.contains x ip)) [
    | inl is ↦ rw is refl
    | inr isnt ↦ rw isnt (contains_any-append ip xs ys (sym (rw isnt refl) ∙ h))
  ]

  contains_any-last :
      (ip : Ip) (network : Net) (xs : List Net)
      → net.contains network ip ≡ true
      → contains_any net ip (xs ++ network ∷ []) ≡ true
  unfolding contains_any
  contains_any-last ip network [] h = rw h refl
  contains_any-last ip network (x ∷ xs) h = elim (Bool-cases (net.contains x ip)) [
    | inl is ↦ rw is refl
    | inr isnt ↦ rw isnt (contains_any-last ip network xs h)
  ]

  allowed-Denies :
      (ip : Ip) (f : Filter Net) (o : Option Net) → Denies ip f → Denies ip (allowed net f o)
  unfolding allowed
  allowed-Denies ip f none h = h
  allowed-Denies ip f (some network) h = h

  denied-Denies :
      (ip : Ip) (f : Filter Net) (o : Option Net) → Denies ip f → Denies ip (denied net f o)
  unfolding denied
  denied-Denies ip f none h = h
  denied-Denies ip f (some network) h = contains_any-append ip f.deny_list (network ∷ []) h

  trusted-Denies :
      (ip : Ip) (f : Filter Net) (o : Option Net) → Denies ip f → Denies ip (trusted net f o)
  unfolding trusted
  trusted-Denies ip f none h = h
  trusted-Denies ip f (some network) h = h

  run-Denies : (os : List Op) (ip : Ip) (f : Filter Net) → Denies ip f → Denies ip (run os f)
  unfolding run step allow_ip deny_ip set_deny_all add_trusted_proxy
  run-Denies [] ip f h = h
  run-Denies (allows cidr ∷ os) ip f h =
      run-Denies os ip _ (allowed-Denies ip f (network_of net cidr) h)
  run-Denies (denies cidr ∷ os) ip f h =
      run-Denies os ip _ (denied-Denies ip f (network_of net cidr) h)
  run-Denies (denies_all ∷ os) ip f h = run-Denies os ip _ h
  run-Denies (trusts cidr ∷ os) ip f h =
      run-Denies os ip _ (trusted-Denies ip f (network_of net cidr) h)

  Denies-refuses : (ip : Ip) (f : Filter Net) → Denies ip f → is_allowed net ip f ≡ false
  unfolding is_allowed
  Denies-refuses ip f h =
      rw h (elim (Bool-cases f.deny_all) [ inl is ↦ rw is refl | inr isnt ↦ rw isnt refl ])

  -- After DenyIP of a range or an address that can be read, and through any operations but AllowAll,
  -- an address of the range is not allowed, whatever the allow list says, and a request whose client
  -- address it is does not reach the handler.
  pub deny_ip-refuses :
      (cidr : String) (network : Net) (os : List Op) (ip : Ip) (f : Filter Net) (req : Request)
      → network_of net cidr ≡ some network
      → net.contains network ip ≡ true
      → let f' = run os (deny_ip net cidr f) in
        (is_allowed net ip f' ≡ false)
        × (extract_client_ip net req f' ≡ some ip → middleware net req f' ≡ false)
  unfolding deny_ip denied middleware admitted
  deny_ip-refuses cidr network os ip f req found inside =
      let start : Denies ip (deny_ip net cidr f) =
        rw found (contains_any-last ip network f.deny_list inside) in
      let no =
        Denies-refuses ip (run os (deny_ip net cidr f))
          (run-Denies os ip (deny_ip net cidr f) start) in
      (no, λ client. rw client no)
