-- ===== src/Client/Examples.antt =====
-- A client of api/pmb.go at concrete inputs.
use pmb.Base.{[], ◌∷◌}
use pmb.Json.{Fields, str, end, field}
use pmb.Client.{incoming, timeout, await}
use pmb.Client.Await.{Ended, await-Ended}

abbrev auth_valid : Fields
auth_valid = field "type" (str "AuthValid") (field "origin" (str "ann") end)

abbrev other : Fields
other = field "type" (str "CopyData") end

await-Ended_example :
    Ended "AuthValid" "ann" "late"
      (incoming other ∷ incoming auth_valid ∷ timeout ∷ [])
      (await "AuthValid" "ann" "late" (incoming other ∷ incoming auth_valid ∷ timeout ∷ []))
await-Ended_example =
    await-Ended "AuthValid" "ann" "late" (incoming other ∷ incoming auth_valid ∷ timeout ∷ [])
