-- ===== src/Health/Aggregate.antt =====
-- The two loops over the components agree.
use pre_code.Common.{
  ◌==◌, ltb, ◌≡◌, refl, ◌∙◌, ap, Bool, true, false, [], ◌∷◌, String, Dict, length, if◌then◌else◌,
  arith,
}
use pre_code.Health.{
  Status, healthy, degraded, unhealthy, unknown, Component, Health, overall_from, overall, lowered,
  summarized, count_status, is_status, summary,
}

-- The worst of the statuses by their counts, which do not depend on an order.
unfoldable pub worst : Dict Component → Status
worst components =
    if length components == 0
    then unknown
    else if ltb 0 (count_status unhealthy components)
    then unhealthy
    else if ltb 0 (count_status degraded components)
    then degraded
    else healthy

worst_from : Bool → Dict Component → Status
worst_from noted components =
    if ltb 0 (count_status unhealthy components)
    then unhealthy
    else if noted
    then degraded
    else if ltb 0 (count_status degraded components)
    then degraded
    else healthy

overall_from-worst : (noted : Bool) (d : Dict Component) → overall_from noted d ≡ worst_from noted d
unfolding overall_from worst_from count_status is_status
overall_from-worst true [] = refl
overall_from-worst false [] = refl
overall_from-worst noted ((name, c) ∷ d) =
    let both = overall_from-worst true d in
    let same = overall_from-worst noted d in ground (arith, both, same)

lowered-unhealthy : (s : Status) → lowered unhealthy s ≡ unhealthy
unfolding lowered
lowered-unhealthy healthy = refl
lowered-unhealthy degraded = refl
lowered-unhealthy unhealthy = refl
lowered-unhealthy unknown = refl

summarized-unhealthy : (d : Dict Component) → summarized unhealthy d ≡ unhealthy
unfolding summarized lowered
summarized-unhealthy [] = refl
summarized-unhealthy ((name, c) ∷ d) =
    ap (λ (s : Status). summarized s d) (lowered-unhealthy c.status) ∙ summarized-unhealthy d

-- Where the loop of `Summary` stands.
so_far : Bool → Status
so_far noted = if noted then degraded else healthy

summarized-at :
    (noted : Bool) (name : String) (c : Component) (d : Dict Component) (s : Status)
    → c.status ≡ s
    → ((b : Bool) → summarized (so_far b) d ≡ worst_from b d)
    → summarized (lowered (so_far noted) s) d ≡ worst_from noted ((name, c) ∷ d)
unfolding lowered worst_from count_status is_status so_far
summarized-at true name c d healthy e ih =
    ground (arith, e, summarized-unhealthy d, ih true, ih false)
summarized-at true name c d degraded e ih =
    ground (arith, e, summarized-unhealthy d, ih true, ih false)
summarized-at true name c d unhealthy e ih =
    ground (arith, e, summarized-unhealthy d, ih true, ih false)
summarized-at true name c d unknown e ih =
    ground (arith, e, summarized-unhealthy d, ih true, ih false)
summarized-at false name c d healthy e ih =
    ground (arith, e, summarized-unhealthy d, ih true, ih false)
summarized-at false name c d degraded e ih =
    ground (arith, e, summarized-unhealthy d, ih true, ih false)
summarized-at false name c d unhealthy e ih =
    ground (arith, e, summarized-unhealthy d, ih true, ih false)
summarized-at false name c d unknown e ih =
    ground (arith, e, summarized-unhealthy d, ih true, ih false)

summarized-worst :
    (noted : Bool) (d : Dict Component) → summarized (so_far noted) d ≡ worst_from noted d
unfolding summarized lowered worst_from count_status is_status so_far
summarized-worst true [] = refl
summarized-worst false [] = refl
summarized-worst noted ((name, c) ∷ d) =
    summarized-at noted name c d c.status refl (λ b. summarized-worst b d)

-- Overall and Summary report the same status: unhealthy where a component is, else degraded where a
-- component is, else unknown where there is no component, else healthy; the order in which the map is
-- visited plays no part.
pub overall-summary :
    (h : Health) → (overall h ≡ worst h.components) × ((summary h).overall ≡ worst h.components)
unfolding overall summary worst worst_from so_far
overall-summary h =
    ground (arith, overall_from-worst false h.components, summarized-worst false h.components)
