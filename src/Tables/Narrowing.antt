-- ===== src/Tables/Narrowing.antt =====
-- A longer query shows fewer rows of each table.
use change_quality_agent.Base.{
  String, truthy, Bool, true, false, not, List, [], ◌∷◌, filter, get_or, ◌≡◌, refl, ap, sym, eq_iff,
  none, some, any, ◌&&◌, Bool-cases, inl, inr, arith, if◌then◌else◌,
}
use change_quality_agent.Base.Scan.{trim}
use change_quality_agent.Tables.Search.{contains_nothing, contains, contains_trans, contains-truthy}
use change_quality_agent.Tables.Rows.{
  McpServerSummary, AgentSummary, LlmProviderSummary, McpStatusFilter, is_other_status, query_of,
  latest_model, shows_server, filtered_servers, shows_agent, filtered_agents, shows_provider,
  filtered_providers,
}

-- Where `few` implies `many`, filtering by `many` first makes no difference.
filter-filter {ℓ} :
    {A : Type ℓ} (few many : A → Bool) (xs : List A)
    → ((x : A) → few x ≡ true → many x ≡ true)
    → filter few (filter many xs) ≡ filter few xs
filter-filter few many [] h = refl
filter-filter few many (x ∷ xs) h = ground (arith, h x, filter-filter few many xs h)

-- What a longer query shows, a query inside it shows.
module _ (lower : String → String) (longer shorter : String)
    (inside : contains longer shorter ≡ true) where
  shows_server-inside :
      (status : McpStatusFilter) (s : McpServerSummary)
      → shows_server lower status longer s ≡ true
      → shows_server lower status shorter s ≡ true
  unfolding shows_server
  shows_server-inside status s h =
      ground
        (arith, contains_trans (lower s.name) longer shorter, contains-truthy longer shorter inside)

  shows_agent-inside :
      (a : AgentSummary) → shows_agent lower longer a ≡ true → shows_agent lower shorter a ≡ true
  unfolding shows_agent
  shows_agent-inside a h = ground (
    arith,
    contains_trans (lower a.id) longer shorter,
    contains_trans (lower a.display_name) longer shorter,
    contains_trans (lower (get_or a.description "")) longer shorter,
    contains_trans (lower (latest_model lower a)) longer shorter,
  )

  shows_provider-inside :
      (p : LlmProviderSummary)
      → shows_provider lower longer p ≡ true
      → shows_provider lower shorter p ≡ true
  unfolding shows_provider
  shows_provider-inside p h = ground (
    arith,
    contains_trans (lower p.id) longer shorter,
    contains_trans (lower p.display_name) longer shorter,
    contains_trans (lower p.provider_type) longer shorter,
  )

-- The filter of a page that leaves the list alone for an empty query.
filter_unless {ℓ} :
    {A : Type ℓ} (few many : A → Bool) (some_few some_many : Bool) (xs : List A)
    → ((x : A) → few x ≡ true → many x ≡ true)
    → (some_many ≡ true → some_few ≡ true)
    → (if not some_few
        then (if not some_many then xs else filter many xs)
        else filter few (if not some_many then xs else filter many xs))
      ≡ (if not some_few then xs else filter few xs)
filter_unless few many true true xs h k = filter-filter few many xs h
filter_unless few many true false xs h k = refl
filter_unless few many false true xs h k = absurd (cc (k refl))
filter_unless few many false false xs h k = refl

contains_empty : (s q : String) → truthy q ≡ false → contains s q ≡ true
contains_empty s q h = let e : q ≡ "" = ground (arith, h, eq_iff q "") in rw e (contains_nothing s)

filter_all {ℓ} :
    {A : Type ℓ} (p : A → Bool) (xs : List A) → ((x : A) → p x ≡ true) → filter p xs ≡ xs
filter_all p [] h = refl
filter_all p (x ∷ xs) h = rw (h x) (ap (λ ys. x ∷ ys) (filter_all p xs h))

filter_same {ℓ} :
    {A : Type ℓ} (p q : A → Bool) (xs : List A) → ((x : A) → p x ≡ q x) → filter p xs ≡ filter q xs
filter_same p q [] h = refl
filter_same p q (x ∷ xs) h = ground (arith, h x, filter_same p q xs h)

-- One of the texts, in lower case, holds what is typed, trimmed and in lower case.
abbrev pub found_in : (String → String) → String → List String → Bool
found_in lower text fields = any (λ field. contains (lower field) (lower (trim text))) fields

abbrev pub agent_fields : AgentSummary → List String
agent_fields a =
    a.id
    ∷ a.display_name
    ∷ get_or a.description ""
    ∷ (elim a.latest_version [ none ↦ "" | some version ↦ version.model ])
    ∷ []

abbrev pub provider_fields : LlmProviderSummary → List String
provider_fields p = p.id ∷ p.display_name ∷ p.provider_type ∷ []

-- The rows that each page shows for a text that is typed.
pub Matching : (String → String) → String → Type 0
Matching lower text =
    ((status : McpStatusFilter) (servers : List McpServerSummary)
      → filtered_servers lower status text servers
        ≡ filter
            (λ s.
              not (is_other_status status s.runtime_status) && found_in lower text (s.name ∷ []))
            servers)
    × ((agents : List AgentSummary)
        → filtered_agents lower text agents
          ≡ filter (λ a. found_in lower text (agent_fields a)) agents)
    × ((providers : List LlmProviderSummary)
        → filtered_providers lower text providers
          ≡ filter (λ p. found_in lower text (provider_fields p)) providers)

rows-Matching : (lower : String → String) (text : String) → Matching lower text
unfolding Matching filtered_servers filtered_agents filtered_providers shows_server shows_agent
    shows_provider
rows-Matching lower text = (
  λ status servers.
      filter_same _ _ servers
        (λ s. ground (arith, contains_empty (lower s.name) (query_of lower text))),
  λ agents. elim (Bool-cases (truthy (query_of lower text))) [
    | inl typed ↦ rw typed (filter_same _ _ agents (λ a. ground arith))
    | inr none_ ↦ rw none_ (
        sym (
          filter_all _ agents
            (λ a. ground (arith, contains_empty (lower a.id) (query_of lower text) none_))))
  ],
  λ providers. elim (Bool-cases (truthy (query_of lower text))) [
    | inl typed ↦ rw typed (filter_same _ _ providers (λ p. ground arith))
    | inr none_ ↦ rw none_ (
        sym (
          filter_all _ providers
            (λ p. ground (arith, contains_empty (lower p.id) (query_of lower text) none_))))
  ],
)

-- For a text that is typed, trimmed and in lower case, the tables show in their order just the rows
-- that have it in one of their texts, in lower case: in the name of a server, which must have the
-- status that is chosen too; in the id, the name, the description or the latest model of an agent; in
-- the id, the name or the type of a provider. When the query that a text asks for holds the one that
-- another text asks for, searching each table for the first text shows the same rows whether it was
-- searched for the other before or not: a longer query only takes rows away.
pub search_narrows :
    (lower : String → String) (text next : String)
    → contains (query_of lower next) (query_of lower text) ≡ true
    → Matching lower text
      × ((status : McpStatusFilter) (servers : List McpServerSummary)
          → filtered_servers lower status next (filtered_servers lower status text servers)
            ≡ filtered_servers lower status next servers)
      × ((agents : List AgentSummary)
          → filtered_agents lower next (filtered_agents lower text agents)
            ≡ filtered_agents lower next agents)
      × ((providers : List LlmProviderSummary)
          → filtered_providers lower next (filtered_providers lower text providers)
            ≡ filtered_providers lower next providers)
unfolding filtered_servers filtered_agents filtered_providers
search_narrows lower text next inside =
    let longer = query_of lower next in
    let shorter = query_of lower text in
    let both = contains-truthy longer shorter inside in
    (
      rows-Matching lower text,
      λ status servers.
          filter-filter (shows_server lower status longer) (shows_server lower status shorter)
            servers (shows_server-inside lower longer shorter inside status),
      λ agents.
          filter_unless (shows_agent lower longer) (shows_agent lower shorter) (truthy longer)
            (truthy shorter) agents (shows_agent-inside lower longer shorter inside) both,
      λ providers.
          filter_unless (shows_provider lower longer) (shows_provider lower shorter) (truthy longer)
            (truthy shorter) providers (shows_provider-inside lower longer shorter inside) both,
    )
