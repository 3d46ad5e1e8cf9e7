-- ===== src/SingleServer/Keys.antt =====
-- What the key of a server depends on.
use couch_companion_ui.Prelude.{
  lower, true, false, [], ◌∷◌, ◌++◌, map, Text, codes, if◌then◌else◌, is_nil, contains, text_eq,
  ◌≡◌, ◌⊎◌, inl, inr, refl, arith, text_beq_iff, sym, ◌∙◌,
}
use couch_companion_ui.SingleServer.{Url, key_of, loopback_hostnames}

abbrev pub IsWeb : Url → Type 0
IsWeb u = (u.protocol ≡ codes "http:") ⊎ (u.protocol ≡ codes "https:")

-- The host part of the key, and the key of a web URL from it.
abbrev host_of : Text → Text
host_of h = if contains h loopback_hostnames then codes "localhost" else h

abbrev key_from : Text → Text → Text
key_from h port =
    if is_nil h then [] else if is_nil port then host_of h else host_of h ++ b':' ∷ port

key_of_web : (u : Url) → IsWeb u → key_of u ≡ key_from (map lower u.hostname) u.port
unfolding key_of
key_of_web u (inl http) = ground (arith, text_beq_iff u.protocol (codes "http:"))
key_of_web u (inr https) = ground (arith, text_beq_iff u.protocol (codes "https:"))

loopback-ne-nil : (h : Text) → contains h loopback_hostnames ≡ true → is_nil h ≡ false
loopback-ne-nil [] e = cc
loopback-ne-nil (c ∷ h) e = refl

-- Two web URLs have the same key where their ports agree and their host names agree up to case, or
-- are both among the loopback names; nothing else of the URLs matters: not the scheme, not the path,
-- not the credentials.
pub key_of_alias :
    (u v : Url)
    → IsWeb u
    → IsWeb v
    → u.port ≡ v.port
    → (map lower u.hostname ≡ map lower v.hostname)
      ⊎ ((contains (map lower u.hostname) loopback_hostnames ≡ true)
          × (contains (map lower v.hostname) loopback_hostnames ≡ true))
    → key_of u ≡ key_of v
key_of_alias u v a b ports (inl same) = key_of_web u a ∙ rw (same, ports) (sym (key_of_web v b))
key_of_alias u v a b ports (inr (l, m)) =
    key_of_web u a
    ∙ rw (l, loopback-ne-nil (map lower u.hostname) l, ports)
        (sym (key_of_web v b ∙ rw (m, loopback-ne-nil (map lower v.hostname) m)))
