-- ===== src/RecentServers/Laws.antt =====
-- What is remembered stays short, sorted and free of repetitions.
use couch_companion_ui.Prelude.{
  ◌≡◌, refl, ap, ◌∙◌, ℕ, zero, suc, ◌≤◌, Bool, false, not, ◌||◌, Option, none, some, List, [], ◌∷◌,
  Text, text_beq_iff, if_rule, ◌===◌, text_eq, leb, leb→le, filter, take, length, length-take-le,
  map, All, All-mono, IsDistinct, contains, arith,
}
use couch_companion_ui.RecentServers.{
  RecentServer, max_entries, insert_entry, sort_mru, record_recent_server, get_last_server,
}

abbrev IsOlder : RecentServer → RecentServer → Type 0
IsOlder e f = f.last_used ≤ e.last_used

-- Newest first.
abbrev pub IsSorted : List RecentServer → Type 0
IsSorted [] = Unit
IsSorted (e ∷ es) = All (IsOlder e) es × IsSorted es

abbrev pub urls : List RecentServer → List Text
urls es = map (λ e. e.url) es

All-insert :
    (P : RecentServer → Type 0) (e : RecentServer) (es : List RecentServer)
    → P e
    → All P es
    → All P (insert_entry e es)
All-insert P e [] p h = (p, tt)
All-insert P e (f ∷ fs) p (q, h) =
    if_rule (All P) (leb f.last_used e.last_used) (λ _. (p, (q, h)))
      (λ _. (q, All-insert P e fs p h))

insert-IsSorted :
    (e : RecentServer) (es : List RecentServer) → IsSorted es → IsSorted (insert_entry e es)
insert-IsSorted e [] s = (tt, tt)
insert-IsSorted e (f ∷ fs) (a, s) =
    if_rule IsSorted (leb f.last_used e.last_used)
      (λ h. (
        (
          leb→le f.last_used e.last_used h,
          All-mono (λ g k. omega (arith, k, leb→le f.last_used e.last_used h)) fs a,
        ),
        (a, s),
      ))
      (λ h. (All-insert (IsOlder f) e fs (ground (arith, h)) a, insert-IsSorted e fs s))

sort_mru-IsSorted : (es : List RecentServer) → IsSorted (sort_mru es)
unfolding sort_mru
sort_mru-IsSorted [] = tt
sort_mru-IsSorted (e ∷ es) = insert-IsSorted e (sort_mru es) (sort_mru-IsSorted es)

contains-insert :
    (u : Text) (e : RecentServer) (es : List RecentServer)
    → contains u (urls (insert_entry e es)) ≡ (e.url === u || contains u (urls es))
contains-insert u e [] = refl
contains-insert u e (f ∷ fs) = ground (arith, contains-insert u e fs)

insert-IsDistinct :
    (e : RecentServer) (es : List RecentServer)
    → contains e.url (urls es) ≡ false
    → IsDistinct (urls es)
    → IsDistinct (urls (insert_entry e es))
insert-IsDistinct e [] h d = (refl, tt)
insert-IsDistinct e (f ∷ fs) h (k, d) = ground (
  arith,
  insert-IsDistinct e fs,
  contains-insert f.url e fs,
  text_beq_iff e.url f.url,
  text_beq_iff f.url e.url,
)

contains-sort :
    (u : Text) (es : List RecentServer) → contains u (urls (sort_mru es)) ≡ contains u (urls es)
unfolding sort_mru
contains-sort u [] = refl
contains-sort u (e ∷ es) = ground (arith, contains-insert u e (sort_mru es), contains-sort u es)

sort_mru-IsDistinct :
    (es : List RecentServer) → IsDistinct (urls es) → IsDistinct (urls (sort_mru es))
unfolding sort_mru
sort_mru-IsDistinct [] d = tt
sort_mru-IsDistinct (e ∷ es) (h, d) =
    insert-IsDistinct e (sort_mru es) (contains-sort e.url es ∙ h) (sort_mru-IsDistinct es d)

contains-take :
    (u : Text) (n : ℕ) (es : List RecentServer)
    → contains u (urls es) ≡ false
    → contains u (urls (take n es)) ≡ false
contains-take u zero es h = refl
contains-take u (suc n) [] h = refl
contains-take u (suc n) (e ∷ es) h = ground (arith, contains-take u n es)

take-IsDistinct :
    (n : ℕ) (es : List RecentServer) → IsDistinct (urls es) → IsDistinct (urls (take n es))
take-IsDistinct zero es d = tt
take-IsDistinct (suc n) [] d = tt
take-IsDistinct (suc n) (e ∷ es) (h, d) = (contains-take e.url n es h, take-IsDistinct n es d)

All-take :
    (P : RecentServer → Type 0) (n : ℕ) (es : List RecentServer) → All P es → All P (take n es)
All-take P zero es h = tt
All-take P (suc n) [] h = tt
All-take P (suc n) (e ∷ es) (p, h) = (p, All-take P n es h)

take-IsSorted : (n : ℕ) (es : List RecentServer) → IsSorted es → IsSorted (take n es)
take-IsSorted zero es s = tt
take-IsSorted (suc n) [] s = tt
take-IsSorted (suc n) (e ∷ es) (a, s) = (All-take (IsOlder e) n es a, take-IsSorted n es s)

others-without :
    (u v : Text) (es : List RecentServer)
    → (contains u (urls es) ≡ false)
    → contains u (urls (filter (λ e. not (e.url === v)) es)) ≡ false
others-without u v [] h = refl
others-without u v (e ∷ es) h = ground (arith, others-without u v es)

others-url :
    (v : Text) (es : List RecentServer)
    → contains v (urls (filter (λ e. not (e.url === v)) es)) ≡ false
others-url v [] = refl
others-url v (e ∷ es) = ground (arith, others-url v es)

others-IsDistinct :
    (v : Text) (es : List RecentServer)
    → IsDistinct (urls es)
    → IsDistinct (urls (filter (λ e. not (e.url === v)) es))
others-IsDistinct v [] d = tt
others-IsDistinct v (e ∷ es) (h, d) =
    ground (arith, others-IsDistinct v es, others-without e.url v es h)

-- What is remembered: at most twenty servers, none twice, the newest first.
pub record IsMru (es : List RecentServer) : Type 0 where
  pub short : length es ≤ max_entries
  pub sorted : IsSorted es
  pub distinct : IsDistinct (urls es)

-- If no server is stored twice, then recording a use leaves at most twenty servers, none twice and
-- the newest first, whatever the clock says.
pub record_recent_server-IsMru :
    (url : Text) (now : ℕ) (stored : List RecentServer)
    → IsDistinct (urls stored)
    → IsMru (record_recent_server url now stored)
unfolding record_recent_server
record_recent_server-IsMru url now stored d = record {
  short = length-take-le max_entries _;
  sorted = take-IsSorted max_entries _ (sort_mru-IsSorted _);
  distinct =
      take-IsDistinct max_entries _
        (sort_mru-IsDistinct _ (others-url url stored, others-IsDistinct url stored d));
}

All-sort : (P : RecentServer → Type 0) (es : List RecentServer) → All P es → All P (sort_mru es)
unfolding sort_mru
All-sort P [] h = tt
All-sort P (e ∷ es) (p, h) = All-insert P e (sort_mru es) p (All-sort P es h)

All-others :
    (P : RecentServer → Type 0) (p : RecentServer → Bool) (es : List RecentServer)
    → All P es
    → All P (filter p es)
All-others P p [] h = tt
All-others P p (e ∷ es) (k, h) =
    if_rule (All P) (p e) (λ _. (k, All-others P p es h)) (λ _. All-others P p es h)

insert_newest :
    (e : RecentServer) (es : List RecentServer) → All (IsOlder e) es → insert_entry e es ≡ e ∷ es
insert_newest e [] h = refl
insert_newest e (f ∷ fs) (a, h) = ground (arith, a)

-- If the clock is not behind any stored use, then the server that was recorded last is the one that
-- `getLastServer` gives.
pub get_last_server-record :
    (url : Text) (now : ℕ) (stored : List RecentServer)
    → All (λ e. e.last_used ≤ now) stored
    → get_last_server (record_recent_server url now stored) ≡ some url
unfolding record_recent_server sort_mru
get_last_server-record url now stored older =
    ap (λ es. get_last_server (take max_entries es))
      (insert_newest newest (sort_mru others) (All-sort (IsOlder newest) others rest))
    ∙ ap head_url (
        insert_newest newest (sort_mru (take 19 (sort_mru others))) (
          All-sort (IsOlder newest) (take 19 (sort_mru others)) (
            All-take (IsOlder newest) 19 (sort_mru others)
              (All-sort (IsOlder newest) others rest))))
  where
    newest : RecentServer
    newest = record { url = url; last_used = now }

    others : List RecentServer
    others = filter (λ e. not (e.url === url)) stored

    head_url : List RecentServer → Option Text
    head_url [] = none
    head_url (e ∷ es) = some e.url

    rest : All (IsOlder newest) others
    rest = All-others (IsOlder newest) (λ e. not (e.url === url)) stored older
