-- ===== src/Network/Watch.antt =====
-- The change notice of client/openpak/network_ceiling.cpp: the digest of what is redirected, and the decision
-- to announce another one. The wait and the notifier's call are the thread's; SHA-256 is an argument.
pub mod Announcing
use openpak_client.Shared.{
  Bool, true, false, ◌||◌, List, [], ◌∷◌, ◌++◌, map, if◌then◌else◌, is_nil, Bytes, codes, bytes_eq,
}
use openpak_client.Platform.{to_lower}
use openpak_client.Network.Profile.{Profile}
use openpak_client.Network.Profile.Document.{bytes_lt}

-- `Watch`, less its lock and the notifier.
pub record Watch : Type 0 where
  pub recheck : Bool
  pub started : Bool
  pub platform : Bytes
  pub in_use : Bytes
  pub announced : Bytes

-- `std::sort` of the entries, by insertion.
insert_sorted : Bytes → List Bytes → List Bytes
insert_sorted x [] = x ∷ []
insert_sorted x (y ∷ ys) =
    let later = insert_sorted x ys in if bytes_lt y x then y ∷ later else x ∷ y ∷ ys

sort : List Bytes → List Bytes
unfolding insert_sorted
sort [] = []
sort (x ∷ xs) = insert_sorted x (sort xs)

-- `std::unique`: of equal neighbours the first stays.
unique : List Bytes → List Bytes
unique [] = []
unique (x ∷ []) = x ∷ []
unique (x ∷ y ∷ ys) = let rest = unique (y ∷ ys) in if bytes_eq x y then rest else x ∷ rest

joined : List Bytes → Bytes
joined [] = []
joined (e ∷ es) = e ++ (10 ∷ joined es)

digest_entries : Profile → List Bytes
digest_entries p =
    map (λ s. codes "family:" ++ to_lower s) p.suffixes
    ++ (map (λ e. codes "exact:" ++ to_lower e) p.exact
        ++ (map (λ o. codes "override:" ++ (to_lower o.0 ++ (b'=' ∷ o.1))) p.overrides
            ++ ((if is_nil p.server_address
                  then []
                  else (codes "address:" ++ p.server_address) ∷ [])
                ++ map (λ s. codes "service:" ++ (s.id ++ (b'=' ∷ s.url))) p.services)))

-- `EffectiveDigest`, over the hexadecimal SHA-256 of a text.
unfoldable pub effective_digest : (Bytes → Bytes) → Profile → Bytes
unfolding sort unique joined digest_entries
effective_digest sha256_hex p = sha256_hex (joined (unique (sort (digest_entries p))))

-- `StartWatching`; the thread is started with the first.
unfoldable pub start_watching : Bytes → Watch → Watch
start_watching platform w = record w { platform = platform; started = true }

-- `RecheckSoon`.
unfoldable pub recheck_soon : Watch → Watch
recheck_soon w = if w.started then record w { recheck = true } else w

-- `SetDigestInUse`.
unfoldable pub set_digest_in_use : Bytes → Watch → Watch
set_digest_in_use digest w = record w { in_use = digest }

-- `ShouldAnnounce`.
unfoldable pub should_announce : Bytes → Watch → Watch × Bool
should_announce digest w =
    if is_nil w.in_use || bytes_eq digest w.in_use || bytes_eq digest w.announced
    then (w, false)
    else (record w { announced = digest }, true)
