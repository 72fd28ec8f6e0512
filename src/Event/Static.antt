-- ===== src/Event/Static.antt =====
-- The static events of `pth_event`: one for each thread and key.
use pth.Base.{
  ℕ, ◌<◌, ◌≡◌, refl, ◌≢◌, ◌∙◌, ap, true, false, Bool, not, ◌&&◌, arith, Ptr, null, update, ==_ne,
  lt→ltb,
}
use pth.Base.Int.{ℤ, pos}
use pth.Data
use pth.Data.Keys.{AllUsed, take_key, create-first}
use pth.Event.{Args, Mem, bit, pending}
use pth.Event.Make.{
  static_event, cached, key_init, World, pick, pth_event, event, finish, kind, filled, Given, Ret,
  made, link,
}

module _ (k : ℕ) (s : Data.State) (small : k < 256) (used : (s.keytab k).used ≡ true) where
  cached-getdata :
      (new : Ptr)
      → new ≢ null
      → (Data.getdata (pos k) (cached new true (pos k) s).1).1 ≡ (cached new true (pos k) s).0
  unfolding cached Data.getdata Data.setdata Data.set_index Data.put
  cached-getdata new n = ground (arith, lt→ltb k 256 small)

  cached-ne_null : (new : Ptr) → new ≢ null → (cached new true (pos k) s).0 ≢ null
  unfolding cached
  cached-ne_null new n = ground arith

cached-found :
    (new : Ptr) (room : Bool) (key : ℤ) (s : Data.State) (e : Ptr)
    → (Data.getdata key s).1 ≡ e
    → e ≢ null
    → cached new room key s ≡ (e, s)
unfolding cached
cached-found new room key s e h en = rw (h, ==_ne e null en) refl

abbrev keyed : ℤ → Ptr × Data.State → Ptr × (ℤ × Data.State)
keyed key r = (r.0, (key, r.1))

static_event-created :
    (k : ℕ) (s : Data.State) (new destructor : Ptr)
    → k < 256
    → AllUsed 0 k s
    → (s.keytab k).used ≡ false
    → static_event new destructor true key_init s
      ≡ keyed (pos k) (cached new true (pos k) (take_key k destructor s))
unfolding static_event
static_event-created k s new destructor small all free =
    rw (create-first destructor s k small all free) refl

static_event-known :
    (k : ℕ) (s : Data.State) (new destructor : Ptr) (room : Bool)
    → static_event new destructor room (pos k) s ≡ keyed (pos k) (cached new room (pos k) s)
unfolding static_event
static_event-known k s new destructor room = ground arith

-- The choice of the event for the second call is that of the first, and changes no key and no data.
static_event-reused :
    (k : ℕ) (s : Data.State) (new new' destructor destructor' : Ptr) (room : Bool)
    → k < 256
    → AllUsed 0 k s
    → (s.keytab k).used ≡ false
    → new ≢ null
    → let r = static_event new destructor true key_init s in
      (r.1.0 ≡ pos k) × (static_event new' destructor' room r.1.0 r.1.1 ≡ r)
static_event-reused k s new new' destructor destructor' room small all free n =
    let s1 = take_key k destructor s in
    let used : (s1.keytab k).used ≡ true = ground arith in
    let c = cached new true (pos k) s1 in
    rw (static_event-created k s new destructor small all free) (
      refl,
      static_event-known k c.1 new' destructor' room
          ∙ ap (keyed (pos k)) (
              cached-found new' room (pos k) c.1 c.0 (cached-getdata k s1 small used new n)
                (cached-ne_null k s1 small used new n)),
    )

static_event-ne_null :
    (k : ℕ) (s : Data.State) (new destructor : Ptr)
    → k < 256
    → AllUsed 0 k s
    → (s.keytab k).used ≡ false
    → new ≢ null
    → (static_event new destructor true key_init s).0 ≢ null
static_event-ne_null k s new destructor small all free n =
    let s1 = take_key k destructor s in
    let used : (s1.keytab k).used ≡ true = ground arith in
    rw (static_event-created k s new destructor small all free)
      (cached-ne_null k s1 small used new n)

event-made :
    (fcntl : ℕ → Bool) (spec : ℕ) (e ch : Ptr) (g : Given) (m : Mem) (a : Args) (goal : ℕ)
    → e ≢ null
    → kind fcntl spec g ≡ filled a goal
    → (event fcntl spec e ch g m).0 ≡ made e
unfolding event finish
event-made fcntl spec e ch g m a goal n h = rw (event, ==_ne e null n, h) refl

update_at {ℓ} : {A : Type ℓ} → (f : Ptr → A) → (e : Ptr) → (v : A) → update f e v e ≡ v
update_at f e v = ground arith

event-fills :
    (fcntl : ℕ → Bool) (spec : ℕ) (e ch : Ptr) (g : Given) (m : Mem) (a : Args) (goal : ℕ)
    → e ≢ null
    → kind fcntl spec g ≡ filled a goal
    → let m' = (event fcntl spec e ch g m).1 in
      (m'.ev_status e ≡ pending) × (m'.ev_args e ≡ a) × (m'.ev_goal e ≡ goal)
unfolding event finish
event-fills fcntl spec e ch g m a goal n h =
    let l = link spec ch e m in
    rw (==_ne e null n, h)
      (update_at l.ev_status e pending, update_at l.ev_args e a, update_at l.ev_goal e goal)

-- A call of `pth_event` with PTH_MODE_STATIC.
abbrev filled_static :
    (fcntl : ℕ → Bool)
    → (spec : ℕ) → (ch : Ptr) → Given
    → Mem
    → Ptr × (ℤ × Data.State)
    → Ret × World
filled_static fcntl spec ch g m r =
    let x = event fcntl spec r.0 ch g m in (x.0, record { key = r.1.0; keys = r.1.1; mem = x.1 })

pth_event-static :
    (fcntl : ℕ → Bool) (spec : ℕ) (w : World) (supplied new destructor ch : Ptr) (room : Bool)
    (g : Given)
    → (not (bit 20 spec) && bit 22 spec) ≡ true
    → pth_event fcntl spec supplied new destructor room ch g w
      ≡ filled_static fcntl spec ch g w.mem (static_event new destructor room w.key w.keys)
unfolding pth_event pick
pth_event-static fcntl spec w supplied new destructor ch room g st = rw st refl

-- If a call site whose key is not yet created calls pth_event twice with PTH_MODE_STATIC and
-- without PTH_MODE_REUSE, in one thread, with nothing in between, with memory for the first call
-- and with kinds of event that are accepted, both calls return the same event, the key of the site
-- is the smallest unused one after both, the second call changes no key and no data of a thread,
-- and it marks the event as pending and gives it the values and the goal of the second call.
pub static-reused :
    (fcntl : ℕ → Bool) (k spec spec' : ℕ) (w : World) (supplied new new' destructor ch ch' : Ptr)
    (room : Bool) (g g' : Given) (a a' : Args) (goal goal' : ℕ)
    → (not (bit 20 spec) && bit 22 spec) ≡ true
    → (not (bit 20 spec') && bit 22 spec') ≡ true
    → w.key ≡ key_init
    → k < 256
    → AllUsed 0 k w.keys
    → (w.keys.keytab k).used ≡ false
    → new ≢ null
    → kind fcntl spec g ≡ filled a goal
    → kind fcntl spec' g' ≡ filled a' goal'
    → let once = pth_event fcntl spec supplied new destructor true ch g w in
      let again = pth_event fcntl spec' supplied new' destructor room ch' g' once.1 in
      (e : Ptr) × (once.0 ≡ made e)
      × (again.0 ≡ made e)
      × (once.1.key ≡ pos k)
      × (again.1.key ≡ pos k)
      × (again.1.keys ≡ once.1.keys)
      × (again.1.mem.ev_status e ≡ pending)
      × (again.1.mem.ev_args e ≡ a')
      × (again.1.mem.ev_goal e ≡ goal')
static-reused fcntl k spec spec' w supplied new new' destructor ch ch' room g g' a a' goal goal' st
      st' init small all free n h h' =
    let r = static_event new destructor true key_init w.keys in
    let (rk, same) =
      static_event-reused k w.keys new new' destructor destructor room small all free n in
    let en = static_event-ne_null k w.keys new destructor small all free n in
    let x = filled_static fcntl spec ch g w.mem r in
    let once : pth_event fcntl spec supplied new destructor true ch g w ≡ x =
      pth_event-static fcntl spec w supplied new destructor ch true g st
      ∙ ap
          (λ key. filled_static fcntl spec ch g w.mem (static_event new destructor true key w.keys))
          init in
    let again : pth_event fcntl spec' supplied new' destructor room ch' g' x.1
        ≡ filled_static fcntl spec' ch' g' x.1.mem r =
      pth_event-static fcntl spec' x.1 supplied new' destructor ch' room g' st'
      ∙ ap (filled_static fcntl spec' ch' g' x.1.mem) same in
    let (pe, ae, ge) = event-fills fcntl spec' r.0 ch' g' x.1.mem a' goal' en h' in
    rw (once, again)
      (
        r.0,
        event-made fcntl spec r.0 ch g w.mem a goal en h,
        event-made fcntl spec' r.0 ch' g' x.1.mem a' goal' en h',
        rk,
        rk,
        refl,
        pe,
        ae,
        ge,
      )
