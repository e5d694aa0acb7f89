-- ===== src/CallData/Readers.antt =====
-- The six classes of streams that only read. Their constructors and their `Proceed` are one text,
-- but for the type of the message, and stand in src/rpcOpenTrackingDeviceDataStreamClientCallData.cpp,
-- src/rpcOpenDataFrameStreamClientCallData.cpp, src/rpcOpenTrackingDevicesEventStreamClientCallData.cpp,
-- src/rpc_base_station_data_stream_client_call_data.cpp,
-- src/rpc_tracking_group_data_stream_client_call_data.cpp and
-- src/rpc_tracking_groups_event_stream_client_call_data.cpp. `R` is the message, `W` what could be
-- written.
use ommo_sdk_external.Prelude.{Bool, List}
use ommo_sdk_external.CallData.{OperationType, Action, CallData, new_call_data, proceed_reader}

module _ {R W : Type 0} where
  -- `rpcOpenTrackingDeviceDataStreamClientCallData`
  unfoldable pub open_tracking_device_data_stream : R → Bool → CallData R × List (Action R W)
  open_tracking_device_data_stream blank cb_handler = new_call_data blank cb_handler

  unfoldable pub tracking_device_data_proceed :
      CallData R → OperationType → CallData R × List (Action R W) × Bool
  tracking_device_data_proceed c op_type = proceed_reader c op_type

  -- `rpcOpenDataFrameStreamClientCallData`
  unfoldable pub open_data_frame_stream : R → Bool → CallData R × List (Action R W)
  open_data_frame_stream blank cb_handler = new_call_data blank cb_handler

  unfoldable pub data_frame_proceed :
      CallData R → OperationType → CallData R × List (Action R W) × Bool
  data_frame_proceed c op_type = proceed_reader c op_type

  -- `rpcOpenTrackingDevicesEventStreamClientCallData`
  unfoldable pub open_tracking_devices_event_stream : R → Bool → CallData R × List (Action R W)
  open_tracking_devices_event_stream blank cb_handler = new_call_data blank cb_handler

  unfoldable pub tracking_devices_event_proceed :
      CallData R → OperationType → CallData R × List (Action R W) × Bool
  tracking_devices_event_proceed c op_type = proceed_reader c op_type

  -- `RpcBaseStationDataStreamClientCallData`
  unfoldable pub open_base_station_data_stream : R → Bool → CallData R × List (Action R W)
  open_base_station_data_stream blank cb_handler = new_call_data blank cb_handler

  unfoldable pub base_station_data_proceed :
      CallData R → OperationType → CallData R × List (Action R W) × Bool
  base_station_data_proceed c op_type = proceed_reader c op_type

  -- `RpcTrackingGroupDataStreamClientCallData`
  unfoldable pub open_tracking_group_data_stream : R → Bool → CallData R × List (Action R W)
  open_tracking_group_data_stream blank cb_handler = new_call_data blank cb_handler

  unfoldable pub tracking_group_data_proceed :
      CallData R → OperationType → CallData R × List (Action R W) × Bool
  tracking_group_data_proceed c op_type = proceed_reader c op_type

  -- `RpcTrackingGroupsEventStreamClientCallData`
  unfoldable pub open_tracking_groups_event_stream : R → Bool → CallData R × List (Action R W)
  open_tracking_groups_event_stream blank cb_handler = new_call_data blank cb_handler

  unfoldable pub tracking_groups_event_proceed :
      CallData R → OperationType → CallData R × List (Action R W) × Bool
  tracking_groups_event_proceed c op_type = proceed_reader c op_type
