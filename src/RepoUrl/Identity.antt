-- ===== src/RepoUrl/Identity.antt =====
-- src/services/git/github-provider.ts: `parseRepoUrl` reads the same repository off every spelling of
-- its address, and src/services/design-mgmt-service.ts: `repoIdentity` takes them for one.
use couch_companion_ui.Prelude.{
  ◌≡◌, refl, sym, ◌∙◌, ap, ℕ, zero, suc, Bool, true, false, not, ◌&&◌, none, some, [], ◌∷◌, ◌++◌,
  map, map-append, codes, Text, nat_eq, nat_beq_iff, all, lower, is_space, arith,
}
use couch_companion_ui.RepoUrl.{
  RepoUrl, is_not, cut_query, has_line_end, is_line_end, is_scp_host, scp_match, scheme_match,
  strip_slashes, strip_git, parts_of, strip_user, named, locate, read_located, identity_of,
  parse_repo_url, repo_identity,
}
use couch_companion_ui.RepoUrl.Spellings.{
  is_nil-behind, all-append, all-weaken, take_while-all, drop_while-all, take_while-stop,
  drop_while-stop, ending, is_host, is_name, IsPlace, path_of, https_url, ssh_url, scp_url,
  parts_of-path,
}

-- What no part of an address holds.
abbrev is_inner : ℕ → Bool
is_inner c = is_not b'?' c && is_not b'#' c && not (is_line_end c)

host_inner : (c : ℕ) → is_host c ≡ true → is_inner c ≡ true
host_inner c h =
    ground (arith, nat_beq_iff c b'?', nat_beq_iff b'?' c, nat_beq_iff c b'#', nat_beq_iff b'#' c)

name_inner : (c : ℕ) → is_name c ≡ true → is_inner c ≡ true
name_inner c h =
    ground (arith, nat_beq_iff c b'?', nat_beq_iff b'?' c, nat_beq_iff c b'#', nat_beq_iff b'#' c)

ending_inner : (git : Bool) (n : ℕ) → all is_inner (ending git n) ≡ true
ending_inner true zero = refl
ending_inner true (suc n) = ground (arith, ending_inner true n)
ending_inner false zero = refl
ending_inner false (suc n) = ground (arith, ending_inner false n)

path_inner : (u : RepoUrl) (git : Bool) (n : ℕ) → IsPlace u → all is_inner (path_of u git n) ≡ true
path_inner u git n h = ground (
  arith,
  all-append is_inner u.owner (b'/' ∷ (u.repo ++ ending git n)),
  all-append is_inner u.repo (ending git n),
  all-weaken is_name is_inner name_inner u.owner h.owner.1,
  all-weaken is_name is_inner name_inner u.repo h.repo.1,
  ending_inner git n,
)

cut_query-inner : (s : Text) → all is_inner s ≡ true → cut_query s ≡ s
cut_query-inner s h = take_while-all _ s (all-weaken is_inner _ (λ c k. ground (arith, k)) s h)

inner_line : (s : Text) → all is_inner s ≡ true → has_line_end s ≡ false
inner_line [] h = refl
inner_line (c ∷ s) h = ground (arith, inner_line s)

behind_separator :
    (u : RepoUrl) (git : Bool) (n c : ℕ)
    → IsPlace u
    → is_inner c ≡ true
    → all is_inner (u.host ++ c ∷ path_of u git n) ≡ true
behind_separator u git n c h k = ground (
  arith,
  all-append is_inner u.host (c ∷ path_of u git n),
  all-weaken is_host is_inner host_inner u.host h.host.1,
  path_inner u git n h,
)

strip_user-host : (s : Text) → all is_host s ≡ true → strip_user s ≡ s
strip_user-host [] h = refl
strip_user-host (c ∷ s) h =
    let k : all (is_not b'@') (c ∷ s) ≡ true =
      all-weaken is_host (is_not b'@')
        (λ d i. ground (arith, i, nat_beq_iff d b'@', nat_beq_iff b'@' d)) (c ∷ s) h in
    rw (take_while-all (is_not b'@') (c ∷ s) k, drop_while-all (is_not b'@') (c ∷ s) k) refl

parse-located :
    (u : RepoUrl) (git : Bool) (n : ℕ)
    → IsPlace u
    → named (map lower (strip_user u.host)) (parts_of (strip_git (strip_slashes (path_of u git n))))
      ≡ some (record u { host = map lower u.host })
parse-located u git n h = rw (strip_user-host u.host h.host.1, parts_of-path u git n h) refl

scheme_match-https :
    (u : RepoUrl) (git : Bool) (n : ℕ)
    → IsPlace u
    → scheme_match (https_url u git n) ≡ some (record { raw_host = u.host; path = path_of u git n })
scheme_match-https u git n h =
    let k : all (is_not b'/') u.host ≡ true =
      all-weaken is_host (is_not b'/')
        (λ d i. ground (arith, i, nat_beq_iff d b'/', nat_beq_iff b'/' d)) u.host h.host.1 in
    rw
      (
        take_while-stop (is_not b'/') u.host b'/' (path_of u git n) k refl,
        drop_while-stop (is_not b'/') u.host b'/' (path_of u git n) k refl,
        h.host.0,
      )
      refl

scp_match-https : (u : RepoUrl) (git : Bool) (n : ℕ) → scp_match (https_url u git n) ≡ none
unfolding is_space
scp_match-https u git n = refl

scp_match-scp :
    (u : RepoUrl) (git : Bool) (n : ℕ)
    → IsPlace u
    → scp_match (scp_url u git n) ≡ some (record { raw_host = u.host; path = path_of u git n })
unfolding is_space
scp_match-scp u git n h =
    let k : all is_scp_host u.host ≡ true =
      all-weaken is_host is_scp_host
        (λ d i. ground (
          arith,
          i,
          nat_beq_iff d b'/',
          nat_beq_iff b'/' d,
          nat_beq_iff d b':',
          nat_beq_iff b':' d,
        ))
        u.host h.host.1 in
    rw
      (
        take_while-stop is_scp_host u.host b':' (path_of u git n) k refl,
        drop_while-stop is_scp_host u.host b':' (path_of u git n) k refl,
        h.host.0,
        is_nil-behind u.owner b'/' (u.repo ++ ending git n),
        inner_line (path_of u git n) (path_inner u git n h),
      )
      refl

-- The `https:` spelling of a repository's address is read as its host, in small letters, its owner and
-- its name, with or without `.git` and any number of slashes behind it. The parts are as `IsPlace`
-- says.
pub parse_repo_url-https :
    (u : RepoUrl) (git : Bool) (n : ℕ)
    → IsPlace u
    → parse_repo_url (https_url u git n) ≡ some (record u { host = map lower u.host })
unfolding parse_repo_url
parse_repo_url-https u git n h =
    let s = https_url u git n in
    ap (λ t. read_located (locate t (scp_match t) (scheme_match t)))
      (cut_query-inner s (behind_separator u git n b'/' h refl))
    ∙ ap (λ o. read_located (locate s o (scheme_match s))) (scp_match-https u git n)
    ∙ ap (λ o. read_located (locate s none o)) (scheme_match-https u git n h)
    ∙ parse-located u git n h

pub parse_repo_url-scp :
    (u : RepoUrl) (git : Bool) (n : ℕ)
    → IsPlace u
    → parse_repo_url (scp_url u git n) ≡ some (record u { host = map lower u.host })
unfolding parse_repo_url
parse_repo_url-scp u git n h =
    let s = scp_url u git n in
    ap (λ t. read_located (locate t (scp_match t) (scheme_match t)))
      (cut_query-inner s (behind_separator u git n b':' h refl))
    ∙ ap (λ o. read_located (locate s o (scheme_match s))) (scp_match-scp u git n h)
    ∙ parse-located u git n h

scheme_match-ssh :
    (u : RepoUrl) (git : Bool) (n : ℕ)
    → IsPlace u
    → scheme_match (ssh_url u git n)
      ≡ some (record { raw_host = codes "git@" ++ u.host; path = path_of u git n })
scheme_match-ssh u git n h =
    let k : all (is_not b'/') (codes "git@" ++ u.host) ≡ true =
      all-weaken is_host (is_not b'/')
        (λ d i. ground (arith, i, nat_beq_iff d b'/', nat_beq_iff b'/' d)) u.host h.host.1 in
    rw
      (
        take_while-stop (is_not b'/') (codes "git@" ++ u.host) b'/' (path_of u git n) k refl,
        drop_while-stop (is_not b'/') (codes "git@" ++ u.host) b'/' (path_of u git n) k refl,
      )
      refl

scp_match-ssh : (u : RepoUrl) (git : Bool) (n : ℕ) → scp_match (ssh_url u git n) ≡ none
unfolding is_space
scp_match-ssh u git n = refl

parse_repo_url-ssh :
    (u : RepoUrl) (git : Bool) (n : ℕ)
    → IsPlace u
    → parse_repo_url (ssh_url u git n) ≡ some (record u { host = map lower u.host })
unfolding parse_repo_url
parse_repo_url-ssh u git n h =
    let s = ssh_url u git n in
    ap (λ t. read_located (locate t (scp_match t) (scheme_match t)))
      (cut_query-inner s (behind_separator u git n b'/' h refl))
    ∙ ap (λ o. read_located (locate s o (scheme_match s))) (scp_match-ssh u git n)
    ∙ ap (λ o. read_located (locate s none o)) (scheme_match-ssh u git n h)
    ∙ rw (parts_of-path u git n h) refl

lower_twice : (s : Text) → map lower (map lower s) ≡ map lower s
lower_twice [] = refl
lower_twice (c ∷ s) =
    ap (λ d. d ∷ map lower (map lower s)) (small c) ∙ ap (λ t. lower c ∷ t) (lower_twice s)
  where
    small : (c : ℕ) → lower (lower c) ≡ lower c
    small c = ground arith

-- The place that an address names, as one text in small letters.
abbrev pub place_name : RepoUrl → Text
place_name u = map lower (u.host ++ b'/' ∷ (u.owner ++ b'/' ∷ u.repo))

identity_of-lowered :
    (url : Text) (u : RepoUrl)
    → identity_of url (some (record u { host = map lower u.host })) ≡ place_name u
identity_of-lowered url u =
    map-append lower (map lower u.host) _
    ∙ ap (λ t. t ++ map lower (b'/' ∷ (u.owner ++ b'/' ∷ u.repo))) (lower_twice u.host)
    ∙ sym (map-append lower u.host _)

-- Three spellings of a repository's address, `https://`, `ssh://git@` and `git@host:`, with or without
-- `.git` and with any number of slashes behind it, have one identity: the host, the owner and the
-- name, joined by slashes, in small letters. The three parts are not empty and hold no separator or
-- line end, and the name itself does not end in `.git`.
pub repo_identity-spellings :
    (u : RepoUrl) (git : Bool) (n : ℕ)
    → IsPlace u
    → (repo_identity (https_url u git n) ≡ place_name u)
      × (repo_identity (ssh_url u git n) ≡ place_name u)
      × (repo_identity (scp_url u git n) ≡ place_name u)
unfolding repo_identity
repo_identity-spellings u git n h =
    let https = https_url u git n in
    let ssh = ssh_url u git n in
    let scp = scp_url u git n in
    (
      ap (identity_of https) (parse_repo_url-https u git n h) ∙ identity_of-lowered https u,
      ap (identity_of ssh) (parse_repo_url-ssh u git n h) ∙ identity_of-lowered ssh u,
      ap (identity_of scp) (parse_repo_url-scp u git n h) ∙ identity_of-lowered scp u,
    )
