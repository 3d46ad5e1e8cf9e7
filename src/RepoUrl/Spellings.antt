-- ===== src/RepoUrl/Spellings.antt =====
-- src/services/git/github-provider.ts: the scans of `parseRepoUrl` on the spellings of a repository's
-- address.
use couch_companion_ui.Prelude.{
  ◌≡◌, refl, sym, ◌∙◌, ap, ℕ, zero, suc, Bool, true, false, not, ◌&&◌, [], ◌∷◌, ◌++◌, append_assoc,
  Text, codes, if◌then◌else◌, ◌===◌, nat_eq, text_eq, nat_beq_iff, text_beq_iff, is_nil, contains,
  contains-append, all, length, length-append, filter, split_at, Bool-cases, inl, inr, arith,
}
use couch_companion_ui.RepoUrl.{
  RepoUrl, take_while, drop_while, is_not, is_line_end, strip_slashes, strip_git, parts_of,
}

abbrev pub dot_git : Text
dot_git = codes ".git"

abbrev pub slashes : ℕ → Text
slashes zero = []
slashes (suc n) = b'/' ∷ slashes n

-- What may stand behind the name of a repository.
abbrev pub ending : Bool → ℕ → Text
ending git n = (if git then dot_git else []) ++ slashes n

pub all-append : (p : ℕ → Bool) (s t : Text) → all p (s ++ t) ≡ (all p s && all p t)
all-append p [] t = refl
all-append p (c ∷ s) t = ground (arith, all-append p s t)

pub all-weaken :
    (p q : ℕ → Bool)
    → ((c : ℕ) → p c ≡ true → q c ≡ true)
    → (s : Text) → all p s ≡ true
    → all q s ≡ true
all-weaken p q h [] k = refl
all-weaken p q h (c ∷ s) k = ground (arith, h c, all-weaken p q h s)

pub take_while-all : (p : ℕ → Bool) (s : Text) → all p s ≡ true → take_while p s ≡ s
take_while-all p [] h = refl
take_while-all p (c ∷ s) h = ground (arith, take_while-all p s)

pub drop_while-all : (p : ℕ → Bool) (s : Text) → all p s ≡ true → drop_while p s ≡ []
drop_while-all p [] h = refl
drop_while-all p (c ∷ s) h = ground (arith, drop_while-all p s)

pub take_while-stop :
    (p : ℕ → Bool) (s : Text) (c : ℕ) (t : Text)
    → all p s ≡ true
    → p c ≡ false
    → take_while p (s ++ c ∷ t) ≡ s
take_while-stop p [] c t h k = ground arith
take_while-stop p (d ∷ s) c t h k = ground (arith, take_while-stop p s c t)

pub drop_while-stop :
    (p : ℕ → Bool) (s : Text) (c : ℕ) (t : Text)
    → all p s ≡ true
    → p c ≡ false
    → drop_while p (s ++ c ∷ t) ≡ c ∷ t
drop_while-stop p [] c t h k = ground arith
drop_while-stop p (d ∷ s) c t h k = ground (arith, drop_while-stop p s c t)

strip_slashes-slashes : (n : ℕ) → strip_slashes (slashes n) ≡ []
strip_slashes-slashes zero = refl
strip_slashes-slashes (suc n) = ground (arith, strip_slashes-slashes n)

-- A text without a slash stays whole in front of slashes.
strip_slashes-name :
    (c : ℕ) (s : Text) (n : ℕ)
    → all (is_not b'/') (c ∷ s) ≡ true
    → strip_slashes (c ∷ s ++ slashes n) ≡ c ∷ s
strip_slashes-name c [] n h = ground (arith, strip_slashes-slashes n)
strip_slashes-name c (d ∷ s) n h = ground (arith, strip_slashes-name d s n)

pub is_nil-behind : (s : Text) (c : ℕ) (t : Text) → is_nil (s ++ c ∷ t) ≡ false
is_nil-behind [] c t = refl
is_nil-behind (d ∷ s) c t = refl

strip_slashes-behind :
    (s t u : Text) (c : ℕ) → strip_slashes t ≡ c ∷ u → strip_slashes (s ++ t) ≡ s ++ c ∷ u
strip_slashes-behind [] t u c h = h
strip_slashes-behind (d ∷ s) t u c h = rw (strip_slashes-behind s t u c h, is_nil-behind s c u) refl

-- A text with a slash is not `.git`, nor is one that is longer.
dot_git-slash : (c : ℕ) (s t : Text) → (c ∷ (s ++ b'/' ∷ t) === dot_git) ≡ false
dot_git-slash c s t = elim (Bool-cases (c ∷ (s ++ b'/' ∷ t) === dot_git)) [
  | inr other ↦ other
  | inl same ↦
      let e : c ∷ (s ++ b'/' ∷ t) ≡ dot_git = (text_beq_iff (c ∷ (s ++ b'/' ∷ t)) dot_git).0 same in
      absurd (ground (arith, ap (contains b'/') e, contains-append b'/' s (b'/' ∷ t)))
]

dot_git-longer : (c : ℕ) (s : Text) → (c ∷ (s ++ dot_git) === dot_git) ≡ false
dot_git-longer c s = elim (Bool-cases (c ∷ (s ++ dot_git) === dot_git)) [
  | inr other ↦ other
  | inl same ↦
      let e : c ∷ (s ++ dot_git) ≡ dot_git = (text_beq_iff (c ∷ (s ++ dot_git)) dot_git).0 same in
      absurd (omega (arith, ap length e, length-append s dot_git))
]

strip_git-behind : (s t : Text) → strip_git (s ++ b'/' ∷ t) ≡ s ++ b'/' ∷ strip_git t
strip_git-behind [] t = refl
strip_git-behind (c ∷ s) t = rw (dot_git-slash c s t, strip_git-behind s t) refl

strip_git-git : (s : Text) → strip_git (s ++ dot_git) ≡ s
strip_git-git [] = refl
strip_git-git (c ∷ s) = rw (dot_git-longer c s, strip_git-git s) refl

split_at-name : (s : Text) → all (is_not b'/') s ≡ true → split_at b'/' s ≡ s ∷ []
split_at-name [] h = refl
split_at-name (c ∷ s) h = ground (arith, split_at-name s)

split_at-behind :
    (s t : Text) → all (is_not b'/') s ≡ true → split_at b'/' (s ++ b'/' ∷ t) ≡ s ∷ split_at b'/' t
split_at-behind [] t h = refl
split_at-behind (c ∷ s) t h = ground (arith, split_at-behind s t)

abbrev pub is_host : ℕ → Bool
is_host c = not (contains c (codes "/:@?#")) && not (is_line_end c)

abbrev pub is_name : ℕ → Bool
is_name c = not (contains c (codes "/?#")) && not (is_line_end c)

-- A host, an owner and a repository that a spelling separates again.
pub record IsPlace (u : RepoUrl) : Type 0 where
  pub host : (is_nil u.host ≡ false) × (all is_host u.host ≡ true)
  pub owner : (is_nil u.owner ≡ false) × (all is_name u.owner ≡ true)
  pub repo : (is_nil u.repo ≡ false) × (all is_name u.repo ≡ true)
  pub bare : strip_git u.repo ≡ u.repo

abbrev pub path_of : RepoUrl → Bool → ℕ → Text
path_of u git n = u.owner ++ b'/' ∷ (u.repo ++ ending git n)

abbrev pub https_url : RepoUrl → Bool → ℕ → Text
https_url u git n = codes "https://" ++ (u.host ++ b'/' ∷ path_of u git n)

abbrev pub ssh_url : RepoUrl → Bool → ℕ → Text
ssh_url u git n = codes "ssh://git@" ++ (u.host ++ b'/' ∷ path_of u git n)

abbrev pub scp_url : RepoUrl → Bool → ℕ → Text
scp_url u git n = codes "git@" ++ (u.host ++ b':' ∷ path_of u git n)

strip_ending :
    (r : Text) (git : Bool) (n : ℕ)
    → is_nil r ≡ false
    → all (is_not b'/') r ≡ true
    → strip_slashes (r ++ ending git n) ≡ (if git then r ++ dot_git else r)
strip_ending [] git n h k = absurd (cc h)
strip_ending (c ∷ r) true n h k =
    ap strip_slashes (sym (append_assoc (c ∷ r) dot_git (slashes n)))
    ∙ strip_slashes-name c (r ++ dot_git) n
        (ground (arith, all-append (is_not b'/') (c ∷ r) dot_git, k))
strip_ending (c ∷ r) false n h k = strip_slashes-name c r n k

strip_path :
    (o r : Text) (git : Bool) (n : ℕ)
    → is_nil r ≡ false
    → all (is_not b'/') r ≡ true
    → strip_slashes (o ++ b'/' ∷ (r ++ ending git n))
      ≡ o ++ b'/' ∷ (if git then r ++ dot_git else r)
strip_path o [] git n h k = absurd (cc h)
strip_path o (c ∷ r) true n h k =
    strip_slashes-behind o (b'/' ∷ (c ∷ r ++ ending true n)) (c ∷ r ++ dot_git) b'/' (
      strip_slashes-behind (b'/' ∷ []) (c ∷ r ++ ending true n) (r ++ dot_git) c
        (strip_ending (c ∷ r) true n h k))
strip_path o (c ∷ r) false n h k =
    strip_slashes-behind o (b'/' ∷ (c ∷ r ++ ending false n)) (c ∷ r) b'/' (
      strip_slashes-behind (b'/' ∷ []) (c ∷ r ++ ending false n) r c
        (strip_ending (c ∷ r) false n h k))

strip_git-ending :
    (r : Text) (git : Bool) → strip_git r ≡ r → strip_git (if git then r ++ dot_git else r) ≡ r
strip_git-ending r true h = strip_git-git r
strip_git-ending r false h = h

name_no_slash : (c : ℕ) → is_name c ≡ true → is_not b'/' c ≡ true
name_no_slash c h = ground (arith, nat_beq_iff c b'/', nat_beq_iff b'/' c)

pub parts_of-path :
    (u : RepoUrl) (git : Bool) (n : ℕ)
    → IsPlace u
    → parts_of (strip_git (strip_slashes (path_of u git n))) ≡ u.owner ∷ u.repo ∷ []
parts_of-path u git n h =
    let o : all (is_not b'/') u.owner ≡ true =
      all-weaken is_name (is_not b'/') name_no_slash u.owner h.owner.1 in
    let r : all (is_not b'/') u.repo ≡ true =
      all-weaken is_name (is_not b'/') name_no_slash u.repo h.repo.1 in
    ap (λ t. parts_of (strip_git t)) (strip_path u.owner u.repo git n h.repo.0 r)
    ∙ ap parts_of (strip_git-behind u.owner (if git then u.repo ++ dot_git else u.repo))
    ∙ ap (λ t. parts_of (u.owner ++ b'/' ∷ t)) (strip_git-ending u.repo git h.bare)
    ∙ ap (filter (λ part. not (is_nil part)))
        (split_at-behind u.owner u.repo o ∙ ap (λ ps. u.owner ∷ ps) (split_at-name u.repo r))
    ∙ rw (h.owner.0, h.repo.0) refl
