-- ===== src/Mibs/Interfaces/Reinit.antt =====
-- src/sonic_ax_impl/mibs/ietf/rfc1213.py: the maps that `reinit_data` of InterfacesUpdater reads.
use sonic_snmpagent.Prelude.{ok, ◌>>=◌}
use sonic_snmpagent.Dict.{nat_eq, list_eq, option_eq}
use sonic_snmpagent.Mibs.Effect.{Effect, and_then, with_result}
use sonic_snmpagent.Mibs.PortUtil.{PortUtil}
use sonic_snmpagent.Mibs.Rows.{item_at}
use sonic_snmpagent.Mibs.Tables.{
  merged, init_sync_d_interface_tables, init_sync_d_vlan_tables, init_sync_d_rif_tables,
}
use sonic_snmpagent.Mibs.Tables.Lags.{init_sync_d_lag_tables}
use sonic_snmpagent.Mibs.Tables.Mgmt.{init_mgmt_interface_tables}
use sonic_snmpagent.Mibs.Interfaces.{InterfacesUpdater}

module _ (port_util : PortUtil) where
  -- Each step assigns all maps of one table, or raises and assigns none.
  unfoldable pub reinit_ports : InterfacesUpdater → Effect InterfacesUpdater
  reinit_ports u =
      with_result
        (do
          if_alias_map ←
              merged (init_sync_d_interface_tables port_util) (λ t. t.if_alias_map) u.db_conn
          if_id_map ← merged (init_sync_d_interface_tables port_util) (λ t. t.if_id_map) u.db_conn
          oid_name_map ←
              merged (init_sync_d_interface_tables port_util) (λ t. t.oid_name_map) u.db_conn
          ok (record u {
            if_alias_map = if_alias_map;
            if_id_map = if_id_map;
            oid_name_map = oid_name_map;
          }))
        u (λ u'. (ok tt, u'))

  unfoldable pub reinit_mgmt : InterfacesUpdater → Effect InterfacesUpdater
  reinit_mgmt u =
      with_result
        (do
          db_conn ← item_at u.db_conn 0
          (oid_name_map, if_alias_map) ← init_mgmt_interface_tables port_util db_conn
          ok (record u { mgmt_oid_name_map = oid_name_map; mgmt_alias_map = if_alias_map }))
        u (λ u'. (ok tt, u'))

  unfoldable pub reinit_vlans : InterfacesUpdater → Effect InterfacesUpdater
  reinit_vlans u =
      with_result
        (do
          vlan_name_map ←
              merged (λ db. ok (init_sync_d_vlan_tables port_util db)) (λ t. t.vlan_name_map)
                u.db_conn
          oid_name_map ←
              merged (λ db. ok (init_sync_d_vlan_tables port_util db)) (λ t. t.oid_name_map)
                u.db_conn
          ok (record u { vlan_name_map = vlan_name_map; vlan_oid_name_map = oid_name_map }))
        u (λ u'. (ok tt, u'))

  unfoldable pub reinit_rifs : InterfacesUpdater → Effect InterfacesUpdater
  reinit_rifs u =
      with_result
        (do
          rif_port_map ←
              merged (λ db. ok (init_sync_d_rif_tables port_util db)) (λ t. t.0) u.db_conn
          port_rif_map ←
              merged (λ db. ok (init_sync_d_rif_tables port_util db)) (λ t. t.1) u.db_conn
          ok (record u { rif_port_map = rif_port_map; port_rif_map = port_rif_map }))
        u (λ u'. (ok tt, u'))

  unfoldable pub reinit_lags : InterfacesUpdater → Effect InterfacesUpdater
  reinit_lags u =
      with_result
        (do
          lag_name_if_name_map ←
              merged (init_sync_d_lag_tables port_util) (λ t. t.lag_name_if_name_map) u.db_conn
          oid_lag_name_map ←
              merged (init_sync_d_lag_tables port_util) (λ t. t.oid_lag_name_map) u.db_conn
          lag_sai_map ← merged (init_sync_d_lag_tables port_util) (λ t. t.lag_sai_map) u.db_conn
          ok (record u {
            lag_name_if_name_map = lag_name_if_name_map;
            oid_lag_name_map = oid_lag_name_map;
            lag_sai_map = lag_sai_map;
          }))
        u (λ u'. (ok tt, u'))

  unfoldable pub reinit_data : InterfacesUpdater → Effect InterfacesUpdater
  unfolding reinit_ports reinit_mgmt reinit_vlans reinit_rifs reinit_lags
  reinit_data u = and_then (reinit_ports u) (λ u1.
      and_then (reinit_mgmt u1)
        (λ u2. and_then (reinit_vlans u2) (λ u3. and_then (reinit_rifs u3) reinit_lags)))
