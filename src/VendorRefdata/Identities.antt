-- ===== src/VendorRefdata/Identities.antt =====
-- What a refresh of the reference data, internal/populator.go of vendor_refdata, leaves alone.
use secwager.VendorRefdata.Rows.{Grown-refl, Grown-update, Grown-trans, Grown}
use secwager.VendorRefdata.Populating.Whole.{populate_once-keeps}
use secwager.VendorRefdata.Runs.{tables_of, done}
use secwager.VendorRefdata.Preserving.{Ends, Ends-failed}
use secwager.VendorRefdata.Store.{
  insert_from, insert_player, suffixed, inserted, upsert_team, upsert_player, upsert_game,
  upsert_season, taken, retimed, renamed, refused, game_refers, transferred, unscored,
}
use secwager.VendorRefdata.Verdicts.{timeless}
use secwager.Prelude.{
  ℕ, String, List, ◌≡◌, inr, inl, suc, zero, none, ◌∷◌, ◌∙◌, [], refl, Bool-cases, any, ◌⊎◌, not,
  Option-cases, ◌||◌, str_eq,
}
use secwager.VendorRefdata.Tables.{
  Tables, StoreFaults, GameRecord, TeamRecord, PlayerRecord, season_known, same_game, same_team,
  select_row, same_player, league_known, player_known, team_known, game_known,
}
use secwager.VendorRefdata.Mapping.{GoText}
use secwager.VendorRefdata.Populating.{Upholds}
use secwager.VendorRefdata.Populator.{Populator, populate_once}

abbrev pub nameless : TeamRecord → TeamRecord
nameless r = record r { name = ""; short_name = "" }

abbrev pub player_key : PlayerRecord → String × String × String
player_key p = (p.id, p.external_vendor, p.external_id)

abbrev pub IsUnplayed : GameRecord → Type 0
IsUnplayed g = (g.status ≡ "SCHEDULED") × (g.home_score ≡ none) × (g.away_score ≡ none)

-- A team keeps all but its names, a player its ids, a game all but its times; a new game is scheduled
-- and has no score; the statistics are as they were.
abbrev pub Kept : Tables → Tables → Type 0
Kept t u =
    Grown nameless (λ r. Unit) t.teams u.teams
    × Grown player_key (λ k. Unit) t.players u.players
    × Grown timeless IsUnplayed t.games u.games
    × (u.stats ≡ t.stats)

Kept-refl : (t : Tables) → Kept t t
Kept-refl t = (
  Grown-refl nameless _ t.teams,
  Grown-refl player_key _ t.players,
  Grown-refl timeless _ t.games,
  refl,
)

Kept-trans : (t u v : Tables) → Kept t u → Kept u v → Kept t v
Kept-trans t u v (teams, players, games, stats) (teams', players', games', stats') = (
  Grown-trans nameless _ t.teams u.teams v.teams teams teams',
  Grown-trans player_key _ t.players u.players v.players players players',
  Grown-trans timeless _ t.games u.games v.games games games',
  stats' ∙ stats,
)

module _ (t : Tables) where
  Kept-teams :
      (rows : List TeamRecord)
      → Grown nameless (λ r. Unit) t.teams rows
      → Ends Kept t (done (record t { teams = rows }))
  unfolding Ends
  Kept-teams rows h = (h, Grown-refl player_key _ t.players, Grown-refl timeless _ t.games, refl)

  Kept-players :
      (rows : List PlayerRecord)
      → Grown player_key (λ r. Unit) t.players rows
      → Ends Kept t (done (record t { players = rows }))
  unfolding Ends
  Kept-players rows h = (Grown-refl nameless _ t.teams, h, Grown-refl timeless _ t.games, refl)

  Kept-games :
      (rows : List GameRecord)
      → Grown timeless IsUnplayed t.games rows
      → Ends Kept t (done (record t { games = rows }))
  unfolding Ends
  Kept-games rows h = (Grown-refl nameless _ t.teams, Grown-refl player_key _ t.players, h, refl)

module _ (faults : StoreFaults) where
  pub insert_player-cases :
      (p : PlayerRecord) (t : Tables)
      → (insert_player faults p t ≡ inserted (record t { players = p ∷ t.players }))
        ⊎ ((insert_player faults p t ≡ taken) ⊎ (insert_player faults p t ≡ refused))
  unfolding insert_player
  insert_player-cases p t = elim (Bool-cases (faults.player_write_fails p.external_id)) [
    | inl fails ↦ inr (inr (rw fails refl))
    | inr fine ↦ elim (Bool-cases (player_known p.id t)) [
      | inl known ↦ inr (inl (rw (fine, known) refl))
      | inr new ↦ elim (Bool-cases (any (same_player p) t.players)) [
        | inl twice ↦ inr (inr (rw (fine, new, twice) refl))
        | inr once ↦ elim (Bool-cases (team_known p.team_id t)) [
          | inl placed ↦ inl (rw (fine, new, once, placed) refl)
          | inr lost ↦ inr (inr (rw (fine, new, once, lost) refl))
        ]
      ]
    ]
  ]

  insert_from-Kept :
      (left suffix : ℕ) (p : PlayerRecord) (t : Tables)
      → Ends Kept t (insert_from faults left suffix p t)
  unfolding insert_from
  insert_from-Kept zero suffix p t = Ends-failed Kept Kept-refl Kept-trans t
  insert_from-Kept (suc left) suffix p t =
      let q : PlayerRecord = record p { id = suffixed p.id suffix } in
      elim (insert_player-cases q t) [
        | inl e ↦
            rw (e, insert_from)
              (Kept-players t (q ∷ t.players) (player_key q ∷ [], (refl, (tt, tt))))
        | inr (inl e) ↦ rw (e, insert_from) (insert_from-Kept left (suc suffix) p t)
        | inr (inr e) ↦ rw (e, insert_from) (Ends-failed Kept Kept-refl Kept-trans t)
      ]

  upsert_player-Kept : (p : PlayerRecord) (t : Tables) → Ends Kept t (upsert_player faults p t)
  unfolding upsert_player
  upsert_player-Kept p t = elim (Bool-cases (faults.player_lookup_fails p.external_id)) [
    | inl lost ↦ rw lost (Ends-failed Kept Kept-refl Kept-trans t)
    | inr fine ↦ elim (Option-cases (select_row (same_player p) t.players)) [
      | inl new ↦ rw (fine, new) (insert_from-Kept 11 0 p t)
      | inr (r, old) ↦
          elim (Bool-cases
            (faults.player_write_fails p.external_id || not (team_known p.team_id t))) [
              | inl fails ↦ rw (fine, old, fails) (Ends-failed Kept Kept-refl Kept-trans t)
              | inr works ↦
                  rw (fine, old, works)
                    (Kept-players t _ (
                      Grown-update player_key _ (λ x. str_eq x.id r.id) (transferred p) (λ x. refl)
                        t.players))
            ]
    ]
  ]

  upsert_season-Kept :
      (league year : ℕ) (t : Tables) → Ends Kept t (upsert_season faults league year t)
  unfolding upsert_season Ends
  upsert_season-Kept league year t = elim (Bool-cases faults.season_fails) [
    | inl fails ↦ rw fails (Kept-refl t)
    | inr fine ↦ elim (Bool-cases (season_known league year t)) [
      | inl known ↦ rw (fine, known) (Kept-refl t)
      | inr new ↦ elim (Bool-cases (league_known league t)) [
        | inl there ↦ rw (fine, new, there) (Kept-refl t)
        | inr gone ↦ rw (fine, new, gone) (Kept-refl t)
      ]
    ]
  ]

  upsert_team-Kept : (r : TeamRecord) (t : Tables) → Ends Kept t (upsert_team faults r t)
  unfolding upsert_team
  upsert_team-Kept r t = elim (Bool-cases (faults.team_fails r.external_id)) [
    | inl fails ↦ rw fails (Ends-failed Kept Kept-refl Kept-trans t)
    | inr fine ↦ elim (Bool-cases (any (same_team r) t.teams)) [
      | inl old ↦
          rw (fine, old)
            (Kept-teams t _ (Grown-update nameless _ (same_team r) (renamed r) (λ x. refl) t.teams))
      | inr new ↦ elim (Bool-cases (team_known r.id t)) [
        | inl known ↦ rw (fine, new, known) (Ends-failed Kept Kept-refl Kept-trans t)
        | inr fresh ↦ elim (Bool-cases (league_known r.league_id t)) [
          | inl there ↦
              rw (fine, new, fresh, there)
                (Kept-teams t (r ∷ t.teams) (nameless r ∷ [], (refl, (tt, tt))))
          | inr gone ↦ rw (fine, new, fresh, gone) (Ends-failed Kept Kept-refl Kept-trans t)
        ]
      ]
    ]
  ]

  upsert_game-Kept :
      (g : GameRecord)
      → g.status ≡ "SCHEDULED"
      → (t : Tables) → Ends Kept t (upsert_game faults g t)
  unfolding upsert_game
  upsert_game-Kept g scheduled t = elim (Bool-cases (faults.game_fails g.external_id)) [
    | inl fails ↦ rw fails (Ends-failed Kept Kept-refl Kept-trans t)
    | inr fine ↦ elim (Bool-cases (any (same_game g) t.games)) [
      | inl old ↦
          rw (fine, old)
            (Kept-games t _
              (Grown-update timeless IsUnplayed (same_game g) (retimed g) (λ x. refl) t.games))
      | inr new ↦ elim (Bool-cases (game_known g.id t)) [
        | inl known ↦ rw (fine, new, known) (Ends-failed Kept Kept-refl Kept-trans t)
        | inr fresh ↦ elim (Bool-cases (game_refers g t)) [
          | inl refers ↦
              rw (fine, new, fresh, refers)
                (Kept-games t _ (timeless (unscored g) ∷ [], (refl, ((scheduled, refl, refl), tt))))
          | inr dangling ↦ rw (fine, new, fresh, dangling) (Ends-failed Kept Kept-refl Kept-trans t)
        ]
      ]
    ]
  ]

  Kept-Upholds : Upholds faults Kept
  Kept-Upholds = record {
    same = Kept-refl;
    chain = Kept-trans;
    season = upsert_season-Kept;
    team = upsert_team-Kept;
    player = upsert_player-Kept;
    game = upsert_game-Kept;
  }

-- A run of the populator, however it ends, keeps every team but for its names, every player's id and
-- external id, every game but for its times, and the statistics; the games that it adds are scheduled
-- and have no score.
pub populate_once-Kept :
    (go : GoText) (faults : StoreFaults) (fuel : ℕ) (p : Populator) (t : Tables)
    → Kept t (tables_of (populate_once go faults fuel p t))
unfolding Ends
populate_once-Kept go faults = populate_once-keeps go faults Kept (Kept-Upholds faults)
