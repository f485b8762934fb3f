-- ===== src/Webhook/Fresh.antt =====
-- What `Resolve` returns was named by channels-go, for the same platform and identifier, and not long
-- ago.
use fieldwatchai_comms_openk.Prelude.{
  ℕ, ◌+◌, ◌≤◌, ◌≡◌, ◌≢◌, inl, inr, refl, sym, ◌∙◌, subst, Bool, true, false, Option, none, some,
  List, [], ◌∷◌, All, All-map, In, In-All, arith, find, find-some, ltb, ◌==◌, ==_eq, comparable_nat,
  comparable_list, if◌then◌else◌,
}
use fieldwatchai_comms_openk.Store.{Text}
use fieldwatchai_comms_openk.Webhook.Lookup.{
  Reply, unreachable, replied, Outcome, found, not_found, transient, CacheEntry, is_success, fresh,
  entry_of, Resolver, lookup_cache_ttl, key_of, cached, store, named, answered, or_ask, resolve,
}

-- No zero rune.
abbrev pub NoZero : Text → Type 0
NoZero s = All (λ c. c ≢ 0) s

-- A request of `Resolve` and what became of it: when, for which platform and identifier.
pub record Exchange : Type 0 where
  pub at : ℕ
  pub platform : Text
  pub identifier : Text
  pub reply : Reply

-- At that time channels-go has answered a request for the platform and the identifier with a status
-- of 2xx and the account.
pub record HasNamed (p i account : Text) (at : ℕ) (h : List Exchange) : Type 0 where
  pub code : ℕ
  pub answer :
      In (record { at = at; platform = p; identifier = i; reply = replied code (some account) }) h
  pub success : is_success code ≡ true

-- An entry of the cache is an account that was named, and expires a minute behind that.
pub record IsEntry (h : List Exchange) (c : Text × CacheEntry) : Type 0 where
  pub at : ℕ
  pub platform : Text
  pub identifier : Text
  pub answer : HasNamed platform identifier c.1.account at h
  pub key : c.0 ≡ key_of platform identifier
  pub plain : NoZero platform
  pub exp : c.1.exp ≡ at + lookup_cache_ttl

abbrev pub IsCache : List Exchange → Resolver → Type 0
IsCache h r = All (IsEntry h) r.cache

-- The exchanges after a look-up: one more, unless the cache answers.
abbrev pub heard : Option Text → ℕ → Text → Text → Reply → List Exchange → List Exchange
heard (some account) later p i reply h = h
heard none later p i reply h =
    record { at = later; platform = p; identifier = i; reply = reply } ∷ h

-- The time, the resolver, and the exchanges so far.
pub record Moment : Type 0 where
  pub time : ℕ
  pub resolver : Resolver
  pub exchanges : List Exchange

-- Keys tell platforms and identifiers apart.
pub key_of-injective :
    (p q i j : Text) → NoZero p → NoZero q → key_of p i ≡ key_of q j → (p ≡ q) × (i ≡ j)
key_of-injective [] [] i j h k e = (refl, cc e)
key_of-injective [] (c ∷ q) i j h k e = absurd (k.0 (cc e))
key_of-injective (c ∷ p) [] i j h k e = absurd (h.0 (cc e))
key_of-injective (c ∷ p) (d ∷ q) i j h k e =
    let r = key_of-injective p q i j h.1 k.1 (cc e) in
    let same : c ≡ d = cc e in (λ n. same n ∷ r.0 n, r.1)

-- The moment behind a look-up.
abbrev pub looked_up : ℕ → Text → Text → Reply → Moment → Moment
looked_up later p i reply m = record {
  time = later;
  resolver = (resolve m.time later p i reply m.resolver).1;
  exchanges = heard (cached m.time (key_of p i) m.resolver) later p i reply m.exchanges;
}

-- A look-up, for a platform named without a zero rune, or the time that passes between two.
pub data Step (m : Moment) : Moment → Type 0 where
  look_up :
      (later : ℕ) (p i : Text) (reply : Reply)
      → m.time ≤ later
      → NoZero p
      → Step m (looked_up later p i reply m)
  wait : (later : ℕ) → m.time ≤ later → Step m (record m { time = later })

pub data Run : Moment → Moment → Type 0 where
  ended : {m : Moment} → Run m m
  next : {m n o : Moment} → Step m n → Run n o → Run m o

later_HasNamed :
    (p i account : Text) (at : ℕ) (x : Exchange) (h : List Exchange)
    → HasNamed p i account at h
    → HasNamed p i account at (x ∷ h)
later_HasNamed p i account at x h n = record {
  code = n.code;
  answer = inr n.answer;
  success = n.success;
}

later_IsCache : (x : Exchange) (h : List Exchange) (r : Resolver) → IsCache h r → IsCache (x ∷ h) r
later_IsCache x h r k =
    All-map (IsEntry h) (IsEntry (x ∷ h)) r.cache
      (λ c e. record {
        at = e.at;
        platform = e.platform;
        identifier = e.identifier;
        answer = later_HasNamed e.platform e.identifier c.1.account e.at x h e.answer;
        key = e.key;
        plain = e.plain;
        exp = e.exp;
      })
      k

-- What a look-up has done, by its outcome.
abbrev Resolved : ℕ → Text → Text → List Exchange → Outcome × Resolver → Type 0
Resolved now p i h (found account, v) =
    IsCache h v × ((at : ℕ) × HasNamed p i account at h × (now ≤ at + lookup_cache_ttl))
Resolved now p i h (not_found, v) = IsCache h v
Resolved now p i h (transient, v) = IsCache h v

module _ (now later : ℕ) (p i : Text) (r : Resolver) (l : now ≤ later) (n : NoZero p) where
  abbrev after : Reply → List Exchange → List Exchange
  after reply h = record { at = later; platform = p; identifier = i; reply = reply } ∷ h

  named-Resolved :
      (code : ℕ) (body : Option Text) (h : List Exchange)
      → is_success code ≡ true
      → IsCache h r
      → Resolved now p i (after (replied code body) h) (named later p i body r)
  unfolding named store
  named-Resolved code none h s k = later_IsCache _ h r k
  named-Resolved code (some []) h s k = later_IsCache _ h r k
  named-Resolved code (some (c ∷ account)) h s k =
      let fact : HasNamed p i (c ∷ account) later (after (replied code (some (c ∷ account))) h) =
        record { code = code; answer = inl refl; success = s } in
      (
        (
          record {
            at = later;
            platform = p;
            identifier = i;
            answer = fact;
            key = refl;
            plain = n;
            exp = refl;
          },
          later_IsCache _ h r k,
        ),
        (later, fact, omega arith),
      )

  answered-Resolved :
      (reply : Reply) (h : List Exchange)
      → IsCache h r
      → Resolved now p i (after reply h) (answered later p i reply r)
  unfolding answered
  answered-Resolved unreachable h k = later_IsCache _ h r k
  answered-Resolved (replied code body) h k = by_tests (code == 404) (is_success code) refl
    where
      by_tests :
          (b c : Bool)
          → is_success code ≡ c
          → Resolved now p i
              (after (replied code body) h)
              (if b then (not_found, r) else if c then named later p i body r else (transient, r))
      by_tests true c s = later_IsCache _ h r k
      by_tests false true s = named-Resolved code body h s k
      by_tests false false s = later_IsCache _ h r k

  resolve-Resolved :
      (reply : Reply) (h : List Exchange)
      → IsCache h r
      → Resolved now p i
          (heard (cached now (key_of p i) r) later p i reply h)
          (resolve now later p i reply r)
  unfolding resolve cached or_ask
  resolve-Resolved reply h k = by_entry (find (λ c. c.0 == key_of p i) r.cache) refl
    where
      by_age :
          (c : Text × CacheEntry)
          → In c r.cache
          → c.0 ≡ key_of p i
          → (b : Bool) → ltb c.1.exp now ≡ b
          → let o = if b then none else some c.1.account in
            Resolved now p i (heard o later p i reply h) (or_ask o later p i reply r)
      by_age c m q true e = answered-Resolved reply h k
      by_age c m q false e =
          let x = In-All (IsEntry h) c r.cache m k in
          let same = key_of-injective x.platform p x.identifier i x.plain n (sym x.key ∙ q) in
          let mine : HasNamed p i c.1.account x.at h =
            subst (λ y. HasNamed y i c.1.account x.at h) same.0
              (subst (λ y. HasNamed x.platform y c.1.account x.at h) same.1 x.answer) in
          (k, (x.at, mine, ground (arith, e, x.exp)))

      by_entry :
          (o : Option (Text × CacheEntry))
          → find (λ c. c.0 == key_of p i) r.cache ≡ o
          → let a = fresh now (entry_of o) in
            Resolved now p i (heard a later p i reply h) (or_ask a later p i reply r)
      by_entry none e = answered-Resolved reply h k
      by_entry (some c) e =
          let q = find-some (λ d. d.0 == key_of p i) r.cache c e in
          by_age c q.0 (==_eq c.0 (key_of p i) q.1) (ltb c.1.exp now) refl

Resolved-IsCache :
    (now : ℕ) (p i : Text) (h : List Exchange) (out : Outcome) (v : Resolver)
    → Resolved now p i h (out, v)
    → IsCache h v
Resolved-IsCache now p i h (found account) v k = k.0
Resolved-IsCache now p i h not_found v k = k
Resolved-IsCache now p i h transient v k = k

abbrev pub IsSound : Moment → Type 0
IsSound m = IsCache m.exchanges m.resolver

looked_up-Resolved :
    (later : ℕ) (p i : Text) (reply : Reply) (m : Moment)
    → m.time ≤ later
    → NoZero p
    → IsSound m
    → Resolved m.time p i
        (looked_up later p i reply m).exchanges
        (resolve m.time later p i reply m.resolver)
looked_up-Resolved later p i reply m l n k =
    resolve-Resolved m.time later p i m.resolver l n reply m.exchanges k

Step-IsSound : (m n : Moment) → Step m n → IsSound m → IsSound n
Step-IsSound m n (look_up later p i reply l z) k =
    let v = resolve m.time later p i reply m.resolver in
    Resolved-IsCache m.time p i (looked_up later p i reply m).exchanges v.0 v.1
      (looked_up-Resolved later p i reply m l z k)
Step-IsSound m n (wait later l) k = k

Run-IsSound : (m o : Moment) → Run m o → IsSound m → IsSound o
Run-IsSound m o ended k = k
Run-IsSound m o (next {n = n} step run) k = Run-IsSound n o run (Step-IsSound m n step k)

-- No look-up so far.
abbrev pub beginning : ℕ → Moment
beginning start = record { time = start; resolver = record { cache = [] }; exchanges = [] }

-- After any sequence of look-ups and waits from an empty cache, let `Resolve` be called for a platform
-- named without a zero rune, and the reply to its request, if it makes one, arrive not before the call.
-- If it returns an account, then channels-go has answered a request for the same platform and the same
-- identifier, this one or an earlier one, with a status of 2xx and that account, at a time not more
-- than sixty seconds before the call.
pub resolve_recent :
    (start later : ℕ) (m : Moment) (p i : Text) (reply : Reply) (account : Text)
    → Run (beginning start) m
    → m.time ≤ later
    → NoZero p
    → (resolve m.time later p i reply m.resolver).0 ≡ found account
    → (at : ℕ) × HasNamed p i account at (looked_up later p i reply m).exchanges
      × (m.time ≤ at + lookup_cache_ttl)
resolve_recent start later m p i reply account run l n e =
    let v = resolve m.time later p i reply m.resolver in
    found_of v.0 v.1 e (looked_up-Resolved later p i reply m l n (Run-IsSound _ m run tt))
  where
    found_of :
        (out : Outcome) (v : Resolver)
        → out ≡ found account
        → Resolved m.time p i (looked_up later p i reply m).exchanges (out, v)
        → (at : ℕ) × HasNamed p i account at (looked_up later p i reply m).exchanges
          × (m.time ≤ at + lookup_cache_ttl)
    found_of (found b) v q k =
        let same : b ≡ account = cc q in
        subst
          (λ a.
            (at : ℕ) × HasNamed p i a at (looked_up later p i reply m).exchanges
            × (m.time ≤ at + lookup_cache_ttl))
          same k.1
    found_of not_found v q k = absurd (cc q)
    found_of transient v q k = absurd (cc q)
