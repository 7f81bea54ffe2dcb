-- ===== src/Tests/Probe.antt =====
-- probe-qfs.ts against a service that refuses everything.
use agama_magicblock.Prelude.{◌≡◌, refl, some, [], ◌∷◌, take}
use agama_magicblock.Client.Net.{process, semantics, report, reported}
use agama_magicblock.Client.Common.{qfs_token}
use agama_magicblock.Client.Journeys.{for_each}
use agama_magicblock.Client.Probe.{probe_call, probe_both, probe, probe_process}
use agama_magicblock.Tests.Fixtures.{an_env, a_world}

-- What is printed of the third request, newest first.
probes :
    take 3 (probe_process (some "https://qfs") an_env a_world).1.log
    ≡ reported "  token    : 9 sendTransaction"
      ∷ reported "  no token : 9 sendTransaction"
      ∷ reported "\nsendTransaction (garbage payload)"
      ∷ []
unfolding probe_process process semantics report qfs_token for_each probe_call probe_both probe
probes = refl
