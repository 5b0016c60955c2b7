-- ===== src/Chain/Multiplexer/Query.antt =====
-- wineventchain/pkg/multiplexer/abci.go: Query, Info and InitChain.
use wineventchain.Common.{ℕ, List, [], ◌∷◌, some, Outcome, ok, err, panic, if◌then◌else◌}
use wineventchain.Chain.Response.{
  Failure, decoding_request, unknown_app_name, multiplex, new_error_response, code_encoding_error,
  code_unknown_app,
}
use wineventchain.Chain.Proof.{ItemResponse, without_proof}
use wineventchain.Chain.Multiplexer.App.{Apps, Formats, Multiplexer, put_hash, generate_app_hash}

-- The other methods of MultiplexedApp: `names` are the names in the order in which InitChain goes
-- over the map, and a query has the path and the height of its request.
pub record AppQueries (apps : Apps) : Type 0 where
  pub names : List (List ℕ)
  pub query : List ℕ → apps.World → List ℕ → ℕ → Outcome Failure ItemResponse
  pub init_chain : List ℕ → apps.World → Outcome Failure (List ℕ)

pub record LastBlock : Type 0 where
  pub last_block_height : ℕ
  pub last_block_app_hash : List ℕ

module _ (apps : Apps) (formats : Formats) (queries : AppQueries apps) where
  -- MultiplexedApplication.Query
  unfoldable pub query_app :
      Multiplexer apps formats → List ℕ → List ℕ → ℕ → Outcome Failure ItemResponse
  unfolding new_error_response without_proof
  query_app mux input path height = elim (formats.request input) [
    | panic ↦ panic
    | err e ↦
        ok
          (without_proof (new_error_response code_encoding_error multiplex (some decoding_request)))
    | ok r ↦
        if apps.known r.app
        then queries.query r.app mux.world path height
        else ok
            (without_proof (new_error_response code_unknown_app multiplex (some unknown_app_name)))
  ]

  -- MultiplexedApplication.Info, without the constants of its answer.
  unfoldable pub last_block : Multiplexer apps formats → LastBlock
  last_block mux = record {
    last_block_height = mux.height;
    last_block_app_hash = generate_app_hash formats mux.app_hashes;
  }

  unfoldable pub init_apps :
      Multiplexer apps formats → List (List ℕ) → Outcome Failure (Multiplexer apps formats)
  init_apps mux [] = ok mux
  init_apps mux (name ∷ names) = elim (queries.init_chain name mux.world) [
    | panic ↦ panic
    | err e ↦ err e
    | ok hash ↦ init_apps (record mux { app_hashes = put_hash mux.app_hashes name hash }) names
  ]

  -- MultiplexedApplication.InitChain: the multiplexer and the hash that it answers with.
  unfoldable pub init_muxed_chain :
      Multiplexer apps formats → Outcome Failure (Multiplexer apps formats × List ℕ)
  unfolding init_apps
  init_muxed_chain mux = elim (init_apps mux queries.names) [
    | panic ↦ panic
    | err e ↦ err e
    | ok mux' ↦ ok (mux', generate_app_hash formats mux'.app_hashes)
  ]
